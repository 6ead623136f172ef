-- ===== src/Base/Decimal.antt =====
-- Decimal numerals: `usize::to_string` and `str::parse::<usize>`.
use Prim.Native.Nat.{ℕ, zero, suc, ◌+◌, ◌-◌, ◌*◌, ◌/◌, ◌%◌, ◌^◌, ◌≤◌, ◌<◌}
use mathlib.Core.Path.{◌≡◌, refl, sym, ap, subst, ◌∙◌}
use mathlib.Core.Bool.{◌&&◌}
use mathlib.Core.Option.{Option, none, some}
use mathlib.Core.List.{[], ◌∷◌, ◌++◌}
use native.Mathlib.Omega.{arith}
use mathlib.Core.Logic.{inl, inr}
use qdrust.Base.Tests.{ltb, leb, ◌==◌, if◌then◌else◌, lt→ltb, ltb→lt, Bool-cases, Option-cases}
use native.Mathlib.Nat.{pow-suc}
use qdrust.Base.Lists.{length, length-append, All, All-snoc}
use qdrust.Base.Texts.{Text}

abbrev pub usize_limit : ℕ
usize_limit = 2 ^ 64

-- The first argument bounds the number of digits.
digits : ℕ → ℕ → Text
digits zero n = []
digits (suc f) n =
    let front = digits f (n / 10) in if ltb n 10 then (48 + n) ∷ [] else front ++ (48 + n % 10) ∷ []

unfoldable pub to_string : ℕ → Text
unfolding digits
to_string n = digits (suc n) n

unfoldable step_digit : ℕ → ℕ → Option ℕ
step_digit acc c = if leb 48 c && leb c 57 then some (acc * 10 + (c - 48)) else none

unfoldable pub read_digits : ℕ → Text → Option ℕ
unfolding step_digit
read_digits acc [] = some acc
read_digits acc (c ∷ cs) = elim (step_digit acc c) [ none ↦ none | some a ↦ read_digits a cs ]

in_usize : Option ℕ → Option ℕ
in_usize none = none
in_usize (some n) = if ltb n usize_limit then some n else none

-- A leading `+` is accepted, an empty numeral is not.
unfoldable pub parse_usize : Text → Option ℕ
unfolding read_digits step_digit in_usize
parse_usize [] = none
parse_usize (c ∷ []) = in_usize (read_digits 0 (c ∷ []))
parse_usize (c ∷ d ∷ ds) =
    in_usize (if c == b'+' then read_digits 0 (d ∷ ds) else read_digits 0 (c ∷ d ∷ ds))

read_digits-append :
    (acc : ℕ) (xs ys : Text) {n : ℕ}
    → read_digits acc xs ≡ some n
    → read_digits acc (xs ++ ys) ≡ read_digits n ys
unfolding read_digits
read_digits-append acc [] ys h = ground arith
read_digits-append acc (c ∷ cs) ys h = elim (Option-cases (step_digit acc c)) [
  | inl e ↦ ground (arith, e)
  | inr (a, e) ↦ rw (e, read_digits) (read_digits-append a cs ys (rw (e, read_digits) at h))
]

step_digit_lem : (acc d : ℕ) → d < 10 → step_digit acc (48 + d) ≡ some (acc * 10 + d)
unfolding step_digit
step_digit_lem acc d h = ground arith

read_digits-digits : (f n : ℕ) → n < f → read_digits 0 (digits f n) ≡ some n
unfolding digits
read_digits-digits zero n h = elim h [ ]
read_digits-digits (suc f) n h = elim (Bool-cases (ltb n 10)) [
  | inl small ↦ rw small (unfold read_digits in ground (arith, step_digit_lem 0 n))
  | inr big ↦ rw big (
      read_digits-append 0 (digits f (n / 10)) _ (read_digits-digits f (n / 10) (ground arith))
      ∙ unfold read_digits in ground (arith, step_digit_lem (n / 10) (n % 10)))
]

-- A numeral begins with a digit.
digits_head : (f n : ℕ) → n < f → (c : ℕ) × (cs : Text) × (digits f n ≡ c ∷ cs) × (48 ≤ c)
unfolding digits
digits_head zero n h = elim h [ ]
digits_head (suc f) n h = elim (Bool-cases (ltb n 10)) [
  | inl small ↦ (48 + n, [], rw small, omega arith)
  | inr big ↦
      let (c, cs, e, p) = digits_head f (n / 10) (ground arith) in
      (c, cs ++ (48 + n % 10) ∷ [], rw (big, e), p)
]

parse_plain :
    (c : ℕ) (cs : Text) → 48 ≤ c → parse_usize (c ∷ cs) ≡ in_usize (read_digits 0 (c ∷ cs))
unfolding parse_usize
parse_plain c [] h = refl
parse_plain c (d ∷ ds) h = ground arith

pub parse_usize-to_string : (n : ℕ) → n < usize_limit → parse_usize (to_string n) ≡ some n
unfolding to_string
parse_usize-to_string n h =
    let (c, cs, e, p) = digits_head (suc n) n (omega arith) in
    subst (λ t. parse_usize t ≡ some n) (sym e)
      (parse_plain c cs p
        ∙ ap in_usize (ap (read_digits 0) (sym e) ∙ read_digits-digits (suc n) n (omega arith))
        ∙ unfold in_usize in rw (lt→ltb n usize_limit h))

length-digits-le : (f n d : ℕ) → n < 10 ^ d → 1 ≤ d → length (digits f n) ≤ d
unfolding digits
length-digits-le zero n d h p = omega (arith, p)
length-digits-le (suc f) n zero h p = elim p [ ]
length-digits-le (suc f) n (suc zero) h p = rw (lt→ltb n 10 (omega (arith, h))) (omega arith)
length-digits-le (suc f) n (suc (suc d)) h p = elim (Bool-cases (ltb n 10)) [
  | inl small ↦ rw small (omega arith)
  | inr big ↦
      let less : n / 10 < 10 ^ suc d = omega (arith, h, pow-suc 10 (suc d)) in
      rw big (
        omega (
          arith,
          length-append (digits f (n / 10)) ((48 + n % 10) ∷ []),
          length-digits-le f (n / 10) (suc d) less (omega arith),
        ))
]

-- A number below 10 ^ d has at most d digits.
pub length-to_string-le : (n d : ℕ) → n < 10 ^ d → 1 ≤ d → length (to_string n) ≤ d
unfolding to_string
length-to_string-le n d h p = length-digits-le (suc n) n d h p

digits-All : (f n : ℕ) → All (λ c. (48 ≤ c) × (c ≤ 57)) (digits f n)
unfolding digits
digits-All zero n = tt
digits-All (suc f) n = elim (Bool-cases (ltb n 10)) [
  | inl small ↦ rw small ((omega arith, omega (arith, ltb→lt n 10 small)), tt)
  | inr big ↦
      rw big (All-snoc _ (digits f (n / 10)) _ (digits-All f (n / 10)) (omega arith, omega arith))
]

pub to_string-All : (n : ℕ) → All (λ c. (48 ≤ c) × (c ≤ 57)) (to_string n)
unfolding to_string
to_string-All n = digits-All (suc n) n
