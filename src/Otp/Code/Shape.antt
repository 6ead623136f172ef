-- ===== src/Otp/Code/Shape.antt =====
-- The codes of totp.rs have the form that an authenticator shows.
use qdrust.Base.{
  ℕ, zero, suc, ◌-◌, ◌/◌, ◌%◌, ◌^◌, ◌≤◌, ◌<◌, leb, ltb, Text, to_ascii_lowercase, true, ◌&&◌, List,
  ◌++◌, length, length-append, All, ok, ensure, >>=-elim, ensure-eq-ok, ok-injective, ◌≡◌, refl, ap,
  subst, arith, ◌⊎◌, inl, inr,
}
use qdrust.Base.Decimal.{to_string, length-to_string-le, to_string-All}
use qdrust.Otp.Base32.{decode_base32}
use qdrust.Otp.Code.{Hash, hash_of, be_bytes, truncate, zeros, pad_zeros, ten_to, code}

abbrev pub IsDigit : ℕ → Type 0
IsDigit c = (48 ≤ c) × (c ≤ 57)

length-zeros : (n : ℕ) → length (zeros n) ≡ n
unfolding zeros
length-zeros zero = refl
length-zeros (suc n) = ap suc (length-zeros n)

pad-All : (n : ℕ) (t : Text) → All IsDigit t → All IsDigit (zeros n ++ t)
unfolding zeros
pad-All zero t h = h
pad-All (suc n) t h = ((omega arith, omega arith), pad-All n t h)

length-pad : (width : ℕ) (t : Text) → length t ≤ width → length (pad_zeros width t) ≡ width
unfolding pad_zeros
length-pad width t h =
    omega (arith, length-append (zeros (width - length t)) t, length-zeros (width - length t))

accepted :
    (digits : ℕ)
    → (leb 6 digits && leb digits 10) ≡ true
    → (digits ≡ 6) ⊎ (digits ≡ 7) ⊎ (digits ≡ 8) ⊎ (digits ≡ 9) ⊎ (digits ≡ 10)
accepted digits h = ground arith

-- A remainder by the wrapped power of ten has no more digits than the power asks for.
below_power :
    (digits n : ℕ) → (leb 6 digits && leb digits 10) ≡ true → n % ten_to digits < 10 ^ digits
unfolding ten_to
below_power digits n h = elim (accepted digits h) [
  | inl e ↦ rw e (omega arith)
  | inr (inl e) ↦ rw e (omega arith)
  | inr (inr (inl e)) ↦ rw e (omega arith)
  | inr (inr (inr (inl e))) ↦ rw e (omega arith)
  | inr (inr (inr (inr e))) ↦ rw e (omega arith)
]

-- A code has as many digits as were asked for, and nothing but digits.
pub code-digits :
    (hmac : Hash → List ℕ → List ℕ → List ℕ) (secret : Text) (digits period : ℕ) (algorithm : Text)
    (at_time : ℕ) {c : Text}
    → code hmac secret digits period algorithm at_time ≡ ok c
    → (length c ≡ digits) × All IsDigit c
unfolding code
code-digits hmac secret digits period algorithm at_time {c} h =
    >>=-elim (ensure (leb 6 digits && leb digits 10) _) _ h λ _ e h.
      >>=-elim (ensure (ltb 0 period) _) _ h λ _ _ h. >>=-elim (decode_base32 secret) _ h λ key _ h.
        >>=-elim (hash_of (to_ascii_lowercase algorithm)) _ h λ hash _ h.
          >>=-elim (truncate (hmac hash key (be_bytes 8 (at_time / period)))) _ h λ binary _ h.
            let n = binary % ten_to digits in
            let in_range = ensure-eq-ok (leb 6 digits && leb digits 10) _ e in
            let short =
              length-to_string-le n digits (below_power digits binary in_range)
                (ground (arith, in_range)) in
            subst (λ t. (length t ≡ digits) × All IsDigit t) (ok-injective h)
              (
                length-pad digits (to_string n) short,
                unfold pad_zeros in pad-All _ (to_string n) (to_string-All n),
              )
