-- ===== src/Expression/Qp/RoundTrip.antt =====
-- `a2b_qp` of expression.rs reads back what `b2a_qp` wrote.
use qdrust.Base.{
  ℕ, ◌+◌, ◌*◌, ◌/◌, ◌%◌, ◌<◌, ◌==◌, ==→eq, ltb, leb, Text, codes, Bool, true, false, not, ◌&&◌,
  ◌||◌, some, List, [], ◌∷◌, ◌++◌, length, All, ◌≡◌, refl, ap, ◌∙◌, arith, Bool-cases, inl, inr,
}
use qdrust.Expression.Qp.{
  Token, line_end, waits, plain, upper_hex, is_blank_byte, escaped, token, flush_pending, QpState,
  put_plain, put_token, qp_loop, qp_encode, hex_digit, hex_pair, from_hex, qp_decode,
}

decode-byte :
    (b : ℕ) (text : Text) → (b == b'=') ≡ false → qp_decode (b ∷ text) ≡ b ∷ qp_decode text
unfolding qp_decode
decode-byte b [] h = refl
decode-byte b (c ∷ []) h = ground (arith, h)
decode-byte b (c ∷ d ∷ text) h = rw (qp_decode, h) refl

hex_digit-upper : (n : ℕ) → n < 16 → hex_digit (upper_hex n) ≡ some n
unfolding hex_digit upper_hex
hex_digit-upper n h = ground arith

upper_hex_no_break :
    (n : ℕ)
    → n < 16
    → (upper_hex n == 10 || upper_hex n == 13) ≡ false × (upper_hex n == b'+') ≡ false
unfolding upper_hex
upper_hex_no_break n h = (ground arith, ground arith)

from_hex-upper : (b : ℕ) → b < 256 → from_hex (upper_hex (b / 16)) (upper_hex (b % 16)) ≡ some b
unfolding from_hex hex_pair
from_hex-upper b h =
    let e : b / 16 * 16 + b % 16 ≡ b = omega arith in
    rw
      (
        (upper_hex_no_break (b / 16) (omega (arith, h))).1,
        hex_digit-upper (b / 16) (omega (arith, h)),
        hex_digit-upper (b % 16) (omega arith),
        e,
      )
      refl

decode-hex :
    (h l : ℕ) (text : Text) {v : ℕ}
    → (h == 10 || h == 13) ≡ false
    → from_hex h l ≡ some v
    → qp_decode (b'=' ∷ h ∷ l ∷ text) ≡ v ∷ qp_decode text
unfolding qp_decode
decode-hex h l text e f = rw (qp_decode, e, f) refl

decode-escaped :
    (b : ℕ) (text : Text) → b < 256 → qp_decode (escaped b ++ text) ≡ b ∷ qp_decode text
unfolding escaped
decode-escaped b text h =
    decode-hex (upper_hex (b / 16)) (upper_hex (b % 16)) text
      (upper_hex_no_break (b / 16) (omega (arith, h))).0 (from_hex-upper b h)

-- A token reads back as its byte, whatever follows it.
Reads : Text → ℕ → Type 0
Reads t b = (text : Text) → qp_decode (t ++ text) ≡ b ∷ qp_decode text

data Codes (b : ℕ) : Token → Type 0 where
  ends : b ≡ 10 → Codes b line_end
  reads : {t : Text} → Reads t b → Codes b (plain t)

is_return : (b : ℕ) (istext : Bool) → (b == 13 && istext) ≡ true → 13 ≡ b
is_return b istext h = ground (arith, h)

token-Codes :
    (quotetabs istext : Bool) (b : ℕ)
    → b < 256
    → (is_blank_byte b && not quotetabs) ≡ false
    → Codes b (token quotetabs istext b)
unfolding token Reads from_hex hex_pair hex_digit
token-Codes quotetabs istext b h k = elim (Bool-cases (b == b'=')) [
  | inl e ↦ rw e (reads (λ text. rw (==→eq b 61 e) (decode-hex 51 68 text {v = 61} refl refl)))
  | inr e ↦ rw e (elim (Bool-cases (b == 13 && istext)) [
    | inl f ↦ rw f (
        reads
          (λ text. decode-byte 13 text refl ∙ ap (λ x. x ∷ qp_decode text) (is_return b istext f)))
    | inr f ↦ rw f (elim (Bool-cases (b == 10 && istext)) [
      | inl g ↦ rw g (ends (ground arith))
      | inr g ↦
          rw (g, k)
            (elim (Bool-cases (leb 0x21 b && leb b 0x7e)) [
              | inl i ↦ rw i (reads (λ text. decode-byte b text e))
              | inr i ↦ rw i (reads (λ text. decode-escaped b text h))
            ])
    ])
  ])
]

decode-soft : (text : Text) → qp_decode (codes "=\r\n" ++ text) ≡ qp_decode text
unfolding qp_decode
decode-soft text = refl

empty : ℕ → QpState
empty n = record { line_len = n; pending = [] }

put_Codes :
    (b n : ℕ) (t : Token) (text : Text)
    → Codes b t
    → qp_decode ((put_token t (empty n)).0 ++ text) ≡ b ∷ qp_decode text
unfolding put_token put_plain flush_pending empty Reads
put_Codes b n line_end text (ends e) = rw e (decode-byte 10 text refl)
put_Codes b n (waits w) text c = elim c [ ]
put_Codes b n (plain t) text (reads h) = elim (Bool-cases (ltb 75 (n + length t))) [
  | inl e ↦ rw e (decode-soft (t ++ text) ∙ h text)
  | inr e ↦ rw e (h text)
]

put_empty : (b n : ℕ) (t : Token) → Codes b t → (m : ℕ) × ((put_token t (empty n)).1 ≡ empty m)
unfolding put_token put_plain empty
put_empty b n line_end (ends e) = (0, refl)
put_empty b n (waits w) c = elim c [ ]
put_empty b n (plain t) (reads h) = elim (Bool-cases (ltb 75 (n + length t))) [
  | inl e ↦ rw e (length t, refl)
  | inr e ↦ rw e (n + length t, refl)
]

module _ (quotetabs istext : Bool) where
  -- A byte that the encoder puts out where it stands, and not held back as a blank.
  abbrev pub IsPlain : ℕ → Type 0
  IsPlain b = (b < 256) × ((is_blank_byte b && not quotetabs) ≡ false)

  decode-loop :
      (bytes : List ℕ) (n : ℕ)
      → All IsPlain bytes
      → qp_decode (qp_loop quotetabs istext bytes (empty n)) ≡ bytes
  unfolding qp_loop empty flush_pending qp_decode
  decode-loop [] n h = refl
  decode-loop (b ∷ bytes) n (p, h) =
      let t = token quotetabs istext b in
      let c = token-Codes quotetabs istext b p.0 p.1 in
      let m = put_empty b n t c in
      put_Codes b n t _ c
      ∙ ap (λ s. b ∷ qp_decode (qp_loop quotetabs istext bytes s)) m.1
      ∙ ap (λ x. b ∷ x) (decode-loop bytes m.0 h)

  -- Bytes without a blank, or any bytes where blanks are escaped, are read back from their
  -- quoted-printable text, as text or not, with the line breaks that the encoder put in.
  pub qp_decode-qp_encode :
      (bytes : List ℕ) → All IsPlain bytes → qp_decode (qp_encode bytes quotetabs istext) ≡ bytes
  unfolding qp_encode empty
  qp_decode-qp_encode bytes h = decode-loop bytes 0 h
