-- ===== src/Otp/Base32/Normal.antt =====
-- What the secrets of totp.rs survive: encoding, and the normal form that the server stores.
use qdrust.Base.{
  ℕ, ◌==◌, Text, is_empty, true, false, not, ◌&&◌, List, [], ◌∷◌, All, keep_if, map, ok, ensure,
  >>=-elim, ok-injective, ensure-eq-ok, ◌≡◌, refl, sym, ap, subst, ◌∙◌, arith, Bool-cases, inl, inr,
}
use qdrust.Otp.Base32.{
  encode_loop, encode_base32, decode_loop, decode_base32, ascii_upper, is_kept, trim_padding, clean,
  normalize_secret, letter_value,
}
use qdrust.Otp.Base32.RoundTrip.{IsByte, none_held}
use qdrust.Otp.Base32.Letters.{
  IsLetter, encode_base32-IsLetter, clean-letters, decode_loop-IsLetter,
}

-- Reading a text that `clean` leaves alone.
decode_clean :
    (t : Text) {bytes : List ℕ}
    → clean t ≡ t
    → is_empty t ≡ false
    → is_empty bytes ≡ false
    → decode_loop 0 0 t ≡ ok bytes
    → decode_base32 t ≡ ok bytes
unfolding decode_base32
decode_clean t c n m h = rw (c, n, h, m) refl

decoded :
    (t : Text) {bytes : List ℕ}
    → decode_base32 t ≡ ok bytes
    → (decode_loop 0 0 (clean t) ≡ ok bytes)
      × (is_empty (clean t) ≡ false)
      × (is_empty bytes ≡ false)
unfolding decode_base32
decoded t {bytes} h = >>=-elim (ensure (not (is_empty (clean t))) _) _ h λ _ e h2.
    >>=-elim (decode_loop 0 0 (clean t)) _ h2 λ out f h3.
      >>=-elim (ensure (not (is_empty out)) _) _ h3 λ _ g h4.
        let same = ok-injective {a = out} h4 in
        let full = ensure-eq-ok (not (is_empty out)) _ g in
        (
          f ∙ ap ok same,
          ground (arith, ensure-eq-ok (not (is_empty (clean t))) _ e),
          ground (arith, full, same),
        )

some_text :
    (byte : ℕ) (bytes : List ℕ)
    → decode_loop 0 0 (encode_base32 (byte ∷ bytes)) ≡ ok (byte ∷ bytes)
    → is_empty (encode_base32 (byte ∷ bytes)) ≡ false
unfolding encode_base32 encode_loop
some_text byte bytes h = refl

-- The verifier reads back any secret of one byte at least that the enrolment wrote.
pub decode_base32-encode_base32 :
    (byte : ℕ) (bytes : List ℕ)
    → All IsByte (byte ∷ bytes)
    → decode_base32 (encode_base32 (byte ∷ bytes)) ≡ ok (byte ∷ bytes)
decode_base32-encode_base32 byte bytes h =
    let text = encode_base32 (byte ∷ bytes) in
    let read : decode_loop 0 0 text ≡ ok (byte ∷ bytes) =
      unfold encode_base32 in none_held 0 0 (byte ∷ bytes) h in
    decode_clean text (clean-letters text (encode_base32-IsLetter (byte ∷ bytes)))
      (some_text byte bytes read) refl read

empty_text : (t : Text) → is_empty t ≡ true → t ≡ []
empty_text [] h = refl
empty_text (c ∷ t) h = cc

no_padding : (c : ℕ) → IsLetter (ascii_upper c) → (c == 61) ≡ false
unfolding ascii_upper letter_value
no_padding c h = ground arith

-- Padding that `clean` takes off the end is all that the normal form leaves out.
normal_text :
    (t : Text)
    → All IsLetter (map ascii_upper (trim_padding (keep_if is_kept t)))
    → keep_if (λ c. is_kept c && not (c == 61)) t ≡ trim_padding (keep_if is_kept t)
unfolding trim_padding
normal_text [] h = refl
normal_text (c ∷ t) h = elim (Bool-cases (is_kept c)) [
  | inr e ↦ rw e (normal_text t (rw e at h))
  | inl e ↦
      let k = keep_if is_kept t in
      elim (Bool-cases (is_empty (trim_padding k) && c == 61)) [
        | inl f ↦
            let bare : is_empty (trim_padding k) ≡ true = ground (arith, f) in
            let pad : (c == 61) ≡ true = ground (arith, f) in
            let none_left = empty_text (trim_padding k) bare in
            rw (e, f, pad) (normal_text t (rw none_left tt) ∙ none_left)
        | inr f ↦
            let (p, rest) = rw (e, f) at h in
            rw (e, f, no_padding c p) (ap (λ s. c ∷ s) (normal_text t rest))
      ]
]

normalize-clean : (t : Text) → All IsLetter (clean t) → normalize_secret t ≡ clean t
unfolding normalize_secret clean
normalize-clean t h = ap (map ascii_upper) (normal_text t h)

-- A secret that decodes has a normal form that decodes to the same key, and whose normal form is
-- itself.
pub decode_base32-normalize_secret :
    (t : Text) {bytes : List ℕ}
    → decode_base32 t ≡ ok bytes
    → (decode_base32 (normalize_secret t) ≡ ok bytes)
      × (normalize_secret (normalize_secret t) ≡ normalize_secret t)
decode_base32-normalize_secret t {bytes} h =
    let (read, full, some_bytes) = decoded t h in
    let letters = decode_loop-IsLetter (clean t) 0 0 read in
    let same = normalize-clean t letters in
    let kept = clean-letters (clean t) letters in
    (
      subst (λ s. decode_base32 s ≡ ok bytes) (sym same)
          (decode_clean (clean t) kept full some_bytes read),
      rw same (normalize-clean (clean t) (subst (All IsLetter) (sym kept) letters) ∙ kept),
    )
