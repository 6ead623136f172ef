-- ===== src/Otp/Base32/Letters.antt =====
-- Texts over the base32 alphabet, which `clean` of totp.rs leaves alone.
use qdrust.Base.{
  ℕ, zero, suc, ◌+◌, ◌-◌, ◌%◌, ◌==◌, leb, ltb, Text, true, false, is_some, List, [], ◌∷◌, ◌++◌, All,
  keep_if, map, ok, >>=-elim, ◌≡◌, refl, arith, Bool-cases, Option-cases, inl, inr,
}
use qdrust.Otp.Base32.{
  letter, letter_value, letter_result, drain, encode_loop, encode_base32, decode_loop, ascii_upper,
  is_kept, trim_padding, clean,
}
use qdrust.Otp.Base32.RoundTrip.{letter_value-letter}

abbrev pub IsLetter : ℕ → Type 0
IsLetter c = is_some (letter_value c) ≡ true

pub letter-IsLetter : (n : ℕ) → IsLetter (letter (n % 32))
letter-IsLetter n = rw (letter_value-letter (n % 32) (omega arith)) refl

All-append : (xs ys : Text) → All IsLetter xs → All IsLetter ys → All IsLetter (xs ++ ys)
All-append [] ys h k = k
All-append (x ∷ xs) ys (p, h) k = (p, All-append xs ys h k)

drain-IsLetter : (rounds buffer bits : ℕ) → All IsLetter (drain rounds buffer bits).0
unfolding drain
drain-IsLetter zero buffer bits = tt
drain-IsLetter (suc rounds) buffer bits = elim (Bool-cases (leb 5 bits)) [
  | inl e ↦ rw e (letter-IsLetter _, drain-IsLetter rounds buffer (bits - 5))
  | inr e ↦ rw e tt
]

encode_loop-IsLetter :
    (bytes : List ℕ) (buffer bits : ℕ) → All IsLetter (encode_loop buffer bits bytes)
unfolding encode_loop
encode_loop-IsLetter [] buffer bits = elim (Bool-cases (ltb 0 bits)) [
  | inl e ↦ rw e (letter-IsLetter _, tt)
  | inr e ↦ rw e tt
]
encode_loop-IsLetter (byte ∷ bytes) buffer bits =
    All-append _ _ (drain-IsLetter (bits + 8) _ (bits + 8)) (encode_loop-IsLetter bytes _ _)

pub encode_base32-IsLetter : (bytes : List ℕ) → All IsLetter (encode_base32 bytes)
unfolding encode_base32
encode_base32-IsLetter bytes = encode_loop-IsLetter bytes 0 0

pub letter_lem :
    (c : ℕ) → IsLetter c → (is_kept c ≡ true) × ((c == 61) ≡ false) × (ascii_upper c ≡ c)
unfolding letter_value is_kept ascii_upper
letter_lem c h = ground arith

keep_if-letters : (t : Text) → All IsLetter t → keep_if is_kept t ≡ t
keep_if-letters [] h = refl
keep_if-letters (c ∷ t) (p, h) = rw ((letter_lem c p).0, keep_if-letters t h) refl

trim_padding-letters : (t : Text) → All IsLetter t → trim_padding t ≡ t
unfolding trim_padding
trim_padding-letters [] h = refl
trim_padding-letters (c ∷ t) (p, h) = ground (arith, letter_lem c p, trim_padding-letters t h)

map-letters : (t : Text) → All IsLetter t → map ascii_upper t ≡ t
map-letters [] h = refl
map-letters (c ∷ t) (p, h) = rw ((letter_lem c p).2, map-letters t h) refl

pub clean-letters : (t : Text) → All IsLetter t → clean t ≡ t
unfolding clean
clean-letters t h = rw (keep_if-letters t h, trim_padding-letters t h, map-letters t h) refl

letter_result-IsLetter : (c : ℕ) {v : ℕ} → letter_result c ≡ ok v → IsLetter c
unfolding letter_result
letter_result-IsLetter c {v} e = elim (Option-cases (letter_value c)) [
  | inl n ↦ cc (rw n at e)
  | inr (w, n) ↦ rw n refl
]

-- A text that decodes holds letters only.
pub decode_loop-IsLetter :
    (t : Text) (buffer bits : ℕ) {out : List ℕ}
    → decode_loop buffer bits t ≡ ok out
    → All IsLetter t
unfolding decode_loop
decode_loop-IsLetter [] buffer bits h = tt
decode_loop-IsLetter (c ∷ t) buffer bits {out} h = >>=-elim (letter_result c) _ h λ v e k.
    >>=-elim (decode_loop _ _ t) _ k
      λ rest f _. (letter_result-IsLetter c e, decode_loop-IsLetter t _ _ {out = rest} f)
