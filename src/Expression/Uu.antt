-- ===== src/Expression/Uu.antt =====
-- The uuencoded lines of expression.rs, `b2a_uu` and `a2b_uu`. A byte is a number below 256; a shift
-- and a mask are a division and a remainder by a power of two.
use qdrust.Base.{
  ℕ, ◌+◌, ◌-◌, ◌*◌, ◌/◌, ◌%◌, ◌^◌, ◌<◌, min, ltb, Text, codes, keep_if, List, [], ◌∷◌, ◌++◌, map,
  length, take, All, ◌≡◌, refl, ap, ◌∙◌, append_assoc, arith,
}

-- Three bytes as four letters.
unfoldable pub uu_letters : ℕ → ℕ → ℕ → Text
uu_letters a b c =
    (32 + a / 4) ∷ (32 + (a % 4 * 16 + b / 16)) ∷ (32 + (b % 16 * 4 + c / 64)) ∷ (32 + c % 64) ∷ []

unfoldable pub uu_chunks : List ℕ → Text
uu_chunks [] = []
uu_chunks (a ∷ []) = uu_letters a 0 0
uu_chunks (a ∷ b ∷ []) = uu_letters a b 0
uu_chunks (a ∷ b ∷ c ∷ bytes) = uu_letters a b c ++ uu_chunks bytes

unfoldable pub uuencode_line : List ℕ → Text
unfolding uu_chunks uu_letters
uuencode_line [] = codes "`\n"
uuencode_line (b ∷ bytes) =
    ((32 + length (b ∷ bytes) % 256) % 256 ∷ uu_chunks (b ∷ bytes)) ++ codes "\n"

-- Four values as three bytes.
unfoldable pub uu_bytes : ℕ → ℕ → ℕ → ℕ → List ℕ
uu_bytes p q r s = (p * 4 + q / 16) ∷ (q % 16 * 16 + r / 4) ∷ (r % 4 * 64 + s) ∷ []

unfoldable pub uu_groups : List ℕ → List ℕ
uu_groups [] = []
uu_groups (p ∷ []) = uu_bytes p 0 0 0
uu_groups (p ∷ q ∷ []) = uu_bytes p q 0 0
uu_groups (p ∷ q ∷ r ∷ []) = uu_bytes p q r 0
uu_groups (p ∷ q ∷ r ∷ s ∷ values) = uu_bytes p q r s ++ uu_groups values

unfoldable pub uu_value : ℕ → ℕ
uu_value c = min (c - 32) 63

-- The length wraps around below the space, as `u32` does in a release build.
unfoldable pub uudecode_line : Text → List ℕ
unfolding uu_groups uu_bytes uu_value
uudecode_line [] = []
uudecode_line (first ∷ line) =
    take ((first + (2 ^ 32 - 32)) % 2 ^ 32)
      (uu_groups (map uu_value (keep_if (λ c. ltb c 128) line)))

abbrev pub IsByte : ℕ → Type 0
IsByte b = b < 256

values : Text → List ℕ
values line = map uu_value (keep_if (λ c. ltb c 128) line)

values-letter : (v : ℕ) (line : Text) → v < 64 → values ((32 + v) ∷ line) ≡ v ∷ values line
unfolding values uu_value
values-letter v line h = ground (arith, h)

letters_values :
    (a b c : ℕ) (line : Text)
    → IsByte a
    → IsByte b
    → IsByte c
    → values (uu_letters a b c ++ line)
      ≡ (a / 4) ∷ (a % 4 * 16 + b / 16) ∷ (b % 16 * 4 + c / 64) ∷ (c % 64) ∷ values line
unfolding uu_letters
letters_values a b c line p q r =
    values-letter (a / 4) _ (omega (arith, p))
    ∙ ap (λ t. (a / 4) ∷ t)
        (values-letter (a % 4 * 16 + b / 16) _ (omega (arith, q))
          ∙ ap (λ t. (a % 4 * 16 + b / 16) ∷ t)
              (values-letter (b % 16 * 4 + c / 64) _ (omega (arith, r))
                ∙ ap (λ t. (b % 16 * 4 + c / 64) ∷ t) (values-letter (c % 64) line (omega arith))))

bytes_group :
    (a b c : ℕ)
    → IsByte a
    → IsByte b
    → IsByte c
    → uu_bytes (a / 4) (a % 4 * 16 + b / 16) (b % 16 * 4 + c / 64) (c % 64) ≡ a ∷ b ∷ c ∷ []
unfolding uu_bytes
bytes_group a b c p q r =
    let e : a / 4 * 4 + (a % 4 * 16 + b / 16) / 16 ≡ a = omega (arith, q) in
    let f : (a % 4 * 16 + b / 16) % 16 * 16 + (b % 16 * 4 + c / 64) / 4 ≡ b = omega (arith, q, r) in
    let g : (b % 16 * 4 + c / 64) % 4 * 64 + c % 64 ≡ c = omega (arith, r) in rw (e, f, g) refl

groups-letters :
    (a b c : ℕ) (line : Text)
    → IsByte a
    → IsByte b
    → IsByte c
    → uu_groups (values (uu_letters a b c ++ line)) ≡ a ∷ b ∷ c ∷ uu_groups (values line)
unfolding uu_groups
groups-letters a b c line p q r = rw (letters_values a b c line p q r, bytes_group a b c p q r) refl

take-groups :
    (bytes : List ℕ)
    → All IsByte bytes
    → take (length bytes) (uu_groups (values (uu_chunks bytes ++ 10 ∷ []))) ≡ bytes
unfolding uu_chunks
take-groups [] h = refl
take-groups (a ∷ []) (p, h) = rw (groups-letters a 0 0 (10 ∷ []) p (omega arith) (omega arith)) refl
take-groups (a ∷ b ∷ []) (p, (q, h)) = rw (groups-letters a b 0 (10 ∷ []) p q (omega arith)) refl
take-groups (a ∷ b ∷ c ∷ bytes) (p, (q, (r, h))) =
    rw
      (
        append_assoc (uu_letters a b c) (uu_chunks bytes) (10 ∷ []),
        groups-letters a b c (uu_chunks bytes ++ 10 ∷ []) p q r,
        take-groups bytes h,
      )
      refl

-- A line that encodes between 1 and 223 bytes is decoded to those bytes.
pub uudecode_line-uuencode_line :
    (b : ℕ) (bytes : List ℕ)
    → All IsByte (b ∷ bytes)
    → length (b ∷ bytes) < 224
    → uudecode_line (uuencode_line (b ∷ bytes)) ≡ b ∷ bytes
unfolding uudecode_line uuencode_line values
uudecode_line-uuencode_line b bytes h l =
    let n : ((32 + length (b ∷ bytes) % 256) % 256 + (2 ^ 32 - 32)) % 2 ^ 32 ≡ length (b ∷ bytes) =
      omega (arith, l) in
    rw n (take-groups (b ∷ bytes) h)
