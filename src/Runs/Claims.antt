-- ===== src/Runs/Claims.antt =====
-- Which run `claim_run` of store.rs leases to a worker.
use qdrust.Base.{
  ℕ, ◌==◌, Bool, true, false, keep_if, none, some, List, [], ◌∷◌, All, ◌≡◌, ◌≢◌, refl, subst, arith,
  inl, inr, Bool-cases,
}
use mathlib.Core.Option.{some-injective, none-ne-some, some-ne-none}
use qdrust.Base.Int.{ℤ, less}
use qdrust.Runs.{Run, find, update_where, changed, comes_before, is_older, choose, first_row}
use qdrust.Runs.Invariant.{Distinct}

less-trans_lem : (a b c : ℤ) → less a b ≡ false → less b c ≡ false → less a c ≡ false
unfolding less
less-trans_lem a b c h k = ground arith

less-asym : (a b : ℤ) → less a b ≡ true → less b a ≡ false
unfolding less
less-asym a b h = ground arith

is_older-asym : (a b : Run) → is_older a b ≡ true → is_older b a ≡ false
unfolding is_older
is_older-asym a b h = ground arith

is_older_trans : (a b c : Run) → is_older a b ≡ false → is_older b c ≡ false → is_older a c ≡ false
unfolding is_older
is_older_trans a b c h k = ground arith

module _ (priority : ℕ → ℤ) where
  comes_before-asym :
      (a b : Run) → comes_before priority a b ≡ true → comes_before priority b a ≡ false
  unfolding comes_before
  comes_before-asym a b h = ground (
    arith,
    less-asym (priority b.task_id) (priority a.task_id),
    less-asym (priority a.task_id) (priority b.task_id),
    is_older-asym a b,
  )

  comes_before_trans :
      (a b c : Run)
      → comes_before priority a b ≡ false
      → comes_before priority b c ≡ false
      → comes_before priority a c ≡ false
  unfolding comes_before
  comes_before_trans a b c h k =
      let f = λ (x : Run). priority x.task_id in
      ground (
        arith,
        less-trans_lem (f b) (f a) (f c),
        less-trans_lem (f a) (f b) (f c),
        less-trans_lem (f c) (f b) (f a),
        less-trans_lem (f b) (f c) (f a),
        less-trans_lem (f a) (f c) (f b),
        less-trans_lem (f c) (f a) (f b),
        is_older_trans a b c,
        less-asym (f a) (f b),
        less-asym (f b) (f a),
        less-asym (f a) (f c),
        less-asym (f c) (f a),
        less-asym (f b) (f c),
        less-asym (f c) (f b),
      )

  comes_before_self : (a : Run) → comes_before priority a a ≡ false
  comes_before_self a = elim (Bool-cases (comes_before priority a a)) [
    | inl e ↦ comes_before-asym a a e
    | inr e ↦ e
  ]

  choose-le :
      (r b : Run)
      → comes_before priority b (choose priority r (some b)) ≡ false
        × comes_before priority r (choose priority r (some b)) ≡ false
  unfolding choose
  choose-le r b = elim (Bool-cases (comes_before priority b r)) [
    | inl e ↦ (rw e (comes_before_self b), rw e (comes_before-asym b r e))
    | inr e ↦ (rw e e, rw e (comes_before_self r))
  ]

  All-before :
      (a b : Run) (rs : List Run)
      → comes_before priority a b ≡ false
      → All (λ c. comes_before priority c a ≡ false) rs
      → All (λ c. comes_before priority c b ≡ false) rs
  All-before a b [] h k = tt
  All-before a b (c ∷ rs) h (p, k) = (comes_before_trans c a b p h, All-before a b rs h k)

  choose-least :
      (x : Run) (rs : List Run)
      → All
          (λ c. comes_before priority c (choose priority x (first_row priority rs)) ≡ false)
          (x ∷ rs)
  unfolding first_row
  choose-least x [] = (comes_before_self x, tt)
  choose-least x (y ∷ rs) =
      let b = choose priority y (first_row priority rs) in
      let le = choose-le x b in
      (le.1, All-before b (choose priority x (some b)) (y ∷ rs) le.0 (choose-least y rs))

  choose-holds :
      (P : Run → Type 0) (x : Run) (rs : List Run)
      → P x
      → All P rs
      → P (choose priority x (first_row priority rs))
  unfolding first_row choose
  choose-holds P x [] p h = p
  choose-holds P x (y ∷ rs) p (k, h) =
      let b = choose priority y (first_row priority rs) in
      elim (Bool-cases (comes_before priority b x)) [
        | inl e ↦ rw e (choose-holds P y rs k h)
        | inr e ↦ rw e p
      ]

  pub first_row-least :
      (rs : List Run) {b : Run}
      → first_row priority rs ≡ some b
      → All (λ c. comes_before priority c b ≡ false) rs
  unfolding first_row
  first_row-least [] h = tt
  first_row-least (x ∷ rs) {b} h =
      subst (λ z. All (λ c. comes_before priority c z ≡ false) (x ∷ rs)) (some-injective _ b h)
        (choose-least x rs)

  pub first_row-holds :
      (P : Run → Type 0) (rs : List Run) {b : Run} → first_row priority rs ≡ some b → All P rs → P b
  unfolding first_row
  first_row-holds P [] {b} h p = absurd (none-ne-some b h)
  first_row-holds P (x ∷ rs) {b} h (p, k) = subst P (some-injective _ b h) (choose-holds P x rs p k)

  pub first_row-none : (rs : List Run) → first_row priority rs ≡ none → rs ≡ []
  unfolding first_row
  first_row-none [] h = refl
  first_row-none (x ∷ rs) h = absurd (some-ne-none _ h)

module _ (test : Run → Bool) where
  pub keep_if-holds : (rs : List Run) → All (λ r. test r ≡ true) (keep_if test rs)
  keep_if-holds [] = tt
  keep_if-holds (x ∷ rs) = elim (Bool-cases (test x)) [
    | inl e ↦ rw e (e, keep_if-holds rs)
    | inr e ↦ rw e (keep_if-holds rs)
  ]

  pub All-keep_if : (P : Run → Type 0) (rs : List Run) → All P rs → All P (keep_if test rs)
  All-keep_if P [] h = tt
  All-keep_if P (x ∷ rs) (p, h) = elim (Bool-cases (test x)) [
    | inl e ↦ rw e (p, All-keep_if P rs h)
    | inr e ↦ rw e (All-keep_if P rs h)
  ]

All-find-cons :
    (x : Run) (rs ks : List Run)
    → All (λ r. find r.id rs ≡ some r) ks
    → All (λ r. r.id ≢ x.id) ks
    → All (λ r. find r.id (x ∷ rs) ≡ some r) ks
unfolding find
All-find-cons x rs [] h d = tt
All-find-cons x rs (k ∷ ks) (p, h) (n, d) = (ground (arith, p, n), All-find-cons x rs ks h d)

-- In a table of distinct ids each row is found under its id.
pub find-Distinct : (rs : List Run) → Distinct rs → All (λ r. find r.id rs ≡ some r) rs
unfolding find
find-Distinct [] d = tt
find-Distinct (x ∷ rs) (n, d) = (ground arith, All-find-cons x rs rs (find-Distinct rs d) n)

module _ (test : Run → Bool) (change : Run → Run) where
  pub find-updated :
      ((r : Run) → (change r).id ≡ r.id)
      → (id : ℕ) (rs : List Run) {r : Run} → find id rs ≡ some r
      → test r ≡ true
      → find id (update_where test change rs) ≡ some (change r)
  unfolding find update_where
  find-updated k id [] h t = cc
  find-updated k id (x ∷ rs) {r} h t = ground (arith, find-updated k id rs {r = r}, k x, h, t)

  pub find-others :
      ((r : Run) → (change r).id ≡ r.id)
      → (id : ℕ) (rs : List Run) → ((r : Run) → test r ≡ true → r.id ≢ id)
      → find id (update_where test change rs) ≡ find id rs
  unfolding find update_where
  find-others k id [] o = refl
  find-others k id (x ∷ rs) o = ground (arith, find-others k id rs o, k x, o x)

pub changed-ne-zero :
    (test : Run → Bool) (id : ℕ) (rs : List Run) {r : Run}
    → find id rs ≡ some r
    → test r ≡ true
    → (changed test rs == 0) ≡ false
unfolding find changed
changed-ne-zero test id [] h t = cc
changed-ne-zero test id (x ∷ rs) {r} h t = ground (arith, changed-ne-zero test id rs {r = r}, h, t)
