-- ===== src/Base/Int.antt =====
-- Signed integers, of which the sources use the order and a lower bound.
use Prim.Native.Nat.{ℕ, zero, suc, ◌-◌, ◌^◌, max}
use mathlib.Core.Bool.{Bool, true, false}
use mathlib.Core.Option.{Option, none, some}
use mathlib.Core.List.{[], ◌∷◌}
use mathlib.Core.Logic.{◌↔◌}
use mathlib.Core.Path.{◌≡◌, ap}
use native.Mathlib.Omega.{arith}
use qdrust.Base.Tests.{ltb, leb, ◌==◌, ==→eq, if◌then◌else◌}
use qdrust.Base.Texts.{Text}
use qdrust.Base.Decimal.{to_string, read_digits}

-- `negsuc n` is -(n + 1).
pub data ℤ : Type 0 where
  pos : ℕ → ℤ
  negsuc : ℕ → ℤ

unfoldable pub less : ℤ → ℤ → Bool
less (pos a) (pos b) = ltb a b
less (pos a) (negsuc b) = false
less (negsuc a) (pos b) = true
less (negsuc a) (negsuc b) = ltb b a

-- `z.max(m)`
unfoldable pub at_least : ℕ → ℤ → ℕ
at_least m (pos n) = max m n
at_least m (negsuc n) = m

unfoldable pub int_eq : ℤ → ℤ → Bool
int_eq (pos a) (pos b) = a == b
int_eq (pos a) (negsuc b) = false
int_eq (negsuc a) (pos b) = false
int_eq (negsuc a) (negsuc b) = a == b

pub int_eq_refl : (a : ℤ) → int_eq a a ≡ true
unfolding int_eq
int_eq_refl (pos a) = ground arith
int_eq_refl (negsuc a) = ground arith

pub int_eq→eq : (a b : ℤ) → int_eq a b ≡ true → a ≡ b
unfolding int_eq
int_eq→eq (pos a) (pos b) h = ap pos (==→eq a b h)
int_eq→eq (pos a) (negsuc b) h = cc
int_eq→eq (negsuc a) (pos b) h = cc
int_eq→eq (negsuc a) (negsuc b) h = ap negsuc (==→eq a b h)

pub int_eq_iff : (a b : ℤ) → (int_eq a b ≡ true) ↔ (a ≡ b)
int_eq_iff a b = (int_eq→eq a b, λ e. rw e (int_eq_refl b))

-- `z + 1` of an `i64`, which wraps around in a release build.
unfoldable pub increment : ℤ → ℤ
increment (pos n) = if n == 2 ^ 63 - 1 then negsuc n else pos (suc n)
increment (negsuc zero) = pos 0
increment (negsuc (suc n)) = negsuc n

unfoldable pub int_text : ℤ → Text
unfolding to_string
int_text (pos n) = to_string n
int_text (negsuc n) = b'-' ∷ to_string (suc n)

below_limit : ℕ → (ℕ → ℤ) → Option ℕ → Option ℤ
below_limit limit sign none = none
below_limit limit sign (some n) = if leb n limit then some (sign n) else none

negated : ℕ → ℤ
negated zero = pos 0
negated (suc n) = negsuc n

-- `parse::<i64>`: one sign may stand before the digits.
unfoldable pub parse_i64 : Text → Option ℤ
unfolding read_digits below_limit negated
parse_i64 [] = none
parse_i64 (c ∷ []) = below_limit (2 ^ 63 - 1) pos (read_digits 0 (c ∷ []))
parse_i64 (c ∷ d ∷ ds) =
    if c == b'-'
    then below_limit (2 ^ 63) negated (read_digits 0 (d ∷ ds))
    else if c == b'+'
    then below_limit (2 ^ 63 - 1) pos (read_digits 0 (d ∷ ds))
    else below_limit (2 ^ 63 - 1) pos (read_digits 0 (c ∷ d ∷ ds))
