-- ===== src/Base/Counting.antt =====
-- Tests that decide predicates, and the counting of the elements that satisfy one.
use Prim.Native.Nat.{ℕ, suc, ◌≤◌}
use mathlib.Core.Path.{◌≡◌, refl, sym, ap, ◌∙◌}
use mathlib.Core.Logic.{◌⊎◌, inl, inr}
use mathlib.Core.Bool.{Bool, true, false, not, ◌&&◌, ◌||◌}
use mathlib.Core.List.{List, [], ◌∷◌}
use native.Mathlib.Omega.{arith}
use qdrust.Base.Tests.{◌==◌, leb, Bool-cases}
use qdrust.Base.Lists.{length, keep_if}
use qdrust.Base.Texts.{Text, text_eq, text_eq→eq, text_eq_refl}

-- The test says whether the predicate holds.
abbrev pub Decides : Bool → Type 0 → Type 0
Decides b P = ((b ≡ true) × P) ⊎ ((b ≡ false) × ¬ P)

pub iff-Decides : {b : Bool} {P Q : Type 0} → (P → Q) → (Q → P) → Decides b P → Decides b Q
iff-Decides to from (inl (e, p)) = inl (e, to p)
iff-Decides to from (inr (e, n)) = inr (e, λ q. n (from q))

pub and-Decides : {b c : Bool} {P Q : Type 0} → Decides b P → Decides c Q → Decides (b && c) (P × Q)
and-Decides (inl (e, p)) (inl (f, q)) = inl (rw (e, f) refl, (p, q))
and-Decides (inl (e, p)) (inr (f, n)) = inr (rw (e, f) refl, λ h. n h.1)
and-Decides (inr (e, n)) d = inr (rw e refl, λ h. n h.0)

pub or-Decides : {b c : Bool} {P Q : Type 0} → Decides b P → Decides c Q → Decides (b || c) (P ⊎ Q)
or-Decides (inl (e, p)) d = inl (rw e refl, inl p)
or-Decides (inr (e, n)) (inl (f, q)) = inl (rw (e, f) refl, inr q)
or-Decides (inr (e, n)) (inr (f, m)) = inr (rw (e, f) refl, neither n m)
  where
    neither : {P Q : Type 0} → ¬ P → ¬ Q → ¬ (P ⊎ Q)
    neither n m (inl p) = n p
    neither n m (inr q) = m q

-- A test that a guard refuses by: it lets pass where the first does not hold, or the second does.
pub unless-Decides :
    {b c : Bool} {P Q : Type 0} → Decides b P → Decides c Q → Decides (not (b && not c)) (P → Q)
unless-Decides (inr (e, n)) d = inl (rw e refl, λ p. absurd (n p))
unless-Decides (inl (e, p)) (inl (f, q)) = inl (rw (e, f) refl, λ _. q)
unless-Decides (inl (e, p)) (inr (f, m)) = inr (rw (e, f) refl, λ h. m (h p))

pub eq-Decides : (a b : ℕ) → Decides (a == b) (a ≡ b)
eq-Decides a b = elim (Bool-cases (a == b)) [
  | inl e ↦ inl (e, ground arith)
  | inr e ↦ inr (e, λ h. ground arith)
]

pub leb-Decides : (a b : ℕ) → Decides (leb a b) (a ≤ b)
leb-Decides a b = elim (Bool-cases (leb a b)) [
  | inl e ↦ inl (e, ground arith)
  | inr e ↦ inr (e, λ h. ground arith)
]

pub text_eq-Decides : (a b : Text) → Decides (text_eq a b) (a ≡ b)
text_eq-Decides a b = elim (Bool-cases (text_eq a b)) [
  | inl e ↦ inl (e, text_eq→eq a b e)
  | inr e ↦ inr (e, λ h. cc (rw h at e, text_eq_refl b))
]

pub true-Decides : (b : Bool) → Decides b (b ≡ true)
true-Decides true = inl (refl, refl)
true-Decides false = inr (refl, λ h. cc)

module _ {A : Type 0} where
  abbrev pub Among : A → List A → Type 0
  Among a [] = ⊥
  Among a (x ∷ xs) = (a ≡ x) ⊎ Among a xs

  -- That many elements of the list satisfy the predicate.
  unfoldable pub Counts : (A → Type 0) → List A → ℕ → Type 0
  Counts P [] n = n ≡ 0
  Counts P (x ∷ xs) n = (P x × (m : ℕ) × (n ≡ suc m) × Counts P xs m) ⊎ (¬ P x × Counts P xs n)

  pub length-keep_if-Counts :
      (P : A → Type 0) (test : A → Bool)
      → ((x : A) → Decides (test x) (P x))
      → (xs : List A) → Counts P xs (length (keep_if test xs))
  unfolding Counts
  length-keep_if-Counts P test d [] = refl
  length-keep_if-Counts P test d (x ∷ xs) = elim (d x) [
    | inl (e, p) ↦ inl (p, length (keep_if test xs), rw e refl, length-keep_if-Counts P test d xs)
    | inr (e, n) ↦ inr (n, rw e (length-keep_if-Counts P test d xs))
  ]

  pub Counts-unique :
      (P : A → Type 0) (xs : List A) (m n : ℕ) → Counts P xs m → Counts P xs n → m ≡ n
  unfolding Counts
  Counts-unique P [] m n h k = h ∙ sym k
  Counts-unique P (x ∷ xs) m n (inl (p, i, e, h)) (inl (q, j, f, k)) =
      e ∙ ap suc (Counts-unique P xs i j h k) ∙ sym f
  Counts-unique P (x ∷ xs) m n (inl (p, i, e, h)) (inr (q, k)) = absurd (q p)
  Counts-unique P (x ∷ xs) m n (inr (p, h)) (inl (q, j, f, k)) = absurd (p q)
  Counts-unique P (x ∷ xs) m n (inr (p, h)) (inr (q, k)) = Counts-unique P xs m n h k
