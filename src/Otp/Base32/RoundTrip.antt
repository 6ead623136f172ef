-- ===== src/Otp/Base32/RoundTrip.antt =====
-- `decode_base32` reads back what `encode_base32` wrote.
use qdrust.Base.{
  ℕ, zero, suc, ◌+◌, ◌-◌, ◌*◌, ◌/◌, ◌%◌, ◌^◌, ◌≤◌, ◌<◌, ◌==◌, leb, Text, true, false, none, some,
  List, [], ◌∷◌, All, if◌then◌else◌, ok, ◌≡◌, refl, arith,
}
use qdrust.Otp.Base32.{u32_mod, letter, letter_value, letter_result, encode_loop, decode_loop}

-- The letters that do not read back as the value they were written for, from the last on.
misread : ℕ → List ℕ
misread zero = []
misread (suc v) =
    let rest = misread v in
    elim (letter_value (letter v)) [ none ↦ v ∷ rest | some w ↦ if w == v then rest else v ∷ rest ]

no_misread : misread 32 ≡ []
unfolding misread letter letter_value
no_misread = refl

misread-letter : (bound v : ℕ) → misread bound ≡ [] → v < bound → letter_value (letter v) ≡ some v
unfolding misread
misread-letter zero v none_wrong lt = absurd (omega (arith, lt))
misread-letter (suc bound) v none_wrong lt = ground (arith, misread-letter bound v, none_wrong)

pub letter_value-letter : (v : ℕ) → v < 32 → letter_value (letter v) ≡ some v
letter_value-letter v = misread-letter 32 v no_misread

letter_result-letter : (v : ℕ) → v < 32 → letter_result (letter v) ≡ ok v
unfolding letter_result
letter_result-letter v h = rw (letter_value-letter v h) refl

decode_end : (buffer bits : ℕ) → decode_loop buffer bits [] ≡ ok []
unfolding decode_loop
decode_end buffer bits = refl

-- A letter that completes no byte, and one that completes one.
decode_more :
    (buffer bits v : ℕ) (cs : Text) {out : List ℕ}
    → v < 32
    → bits < 3
    → decode_loop (buffer * 2 ^ 5 % u32_mod + v) (bits + 5) cs ≡ ok out
    → decode_loop buffer bits (letter v ∷ cs) ≡ ok out
unfolding decode_loop
decode_more buffer bits v cs h k e =
    let t : leb 8 (bits + 5) ≡ false = ground arith in rw (letter_result-letter v h, t, e) refl

decode_push :
    (buffer bits v b : ℕ) (cs : Text) {out : List ℕ}
    → v < 32
    → 3 ≤ bits
    → (buffer * 2 ^ 5 % u32_mod + v) / 2 ^ (bits - 3) % 256 ≡ b
    → decode_loop (buffer * 2 ^ 5 % u32_mod + v) (bits - 3) cs ≡ ok out
    → decode_loop buffer bits (letter v ∷ cs) ≡ ok (b ∷ out)
unfolding decode_loop
decode_push buffer bits v b cs h k g e =
    let t : leb 8 (bits + 5) ≡ true = ground arith in
    let m : bits + 5 - 8 ≡ bits - 3 = omega arith in rw (letter_result-letter v h, t, m, e, g) refl

abbrev pub IsByte : ℕ → Type 0
IsByte b = b < 256

-- The encoder holds back the low `bits` bits of the byte `b`, whose other bits the decoder has.
abbrev Splits : ℕ → ℕ → ℕ → ℕ → ℕ → Type 0
Splits bits held buffer b encoded =
    (encoded % 2 ^ bits ≡ b % 2 ^ bits) × (buffer % 2 ^ held ≡ b / 2 ^ bits) × IsByte b

mutual
  unfolding encode_loop

  pub none_held :
      (encoded buffer : ℕ) (bytes : List ℕ)
      → All IsByte bytes
      → decode_loop buffer 0 (encode_loop encoded 0 bytes) ≡ ok bytes
  none_held encoded buffer [] h = decode_end _ _
  none_held encoded buffer (c ∷ bytes) (p, h) =
      decode_more buffer 0 _ _ (omega arith) (omega arith)
        (three_held _ _ c bytes (omega arith, omega arith, p) h)

  three_held :
      (encoded buffer b : ℕ) (bytes : List ℕ)
      → Splits 3 5 buffer b encoded
      → All IsByte bytes
      → decode_loop buffer 5 (encode_loop encoded 3 bytes) ≡ ok (b ∷ bytes)
  three_held encoded buffer b [] (e, d, q) h =
      decode_push buffer 5 _ b _ (omega arith) (omega arith) (omega (arith, e, d)) (decode_end _ _)
  three_held encoded buffer b (c ∷ bytes) (e, d, q) (p, h) =
      decode_push buffer 5 _ b _ (omega arith) (omega arith) (omega (arith, e, d)) (
        decode_more _ 2 _ _ (omega arith) (omega arith)
          (one_held _ _ c bytes (omega (arith, e, d), omega (arith, e, d), p) h))

  one_held :
      (encoded buffer b : ℕ) (bytes : List ℕ)
      → Splits 1 7 buffer b encoded
      → All IsByte bytes
      → decode_loop buffer 7 (encode_loop encoded 1 bytes) ≡ ok (b ∷ bytes)
  one_held encoded buffer b [] (e, d, q) h =
      decode_push buffer 7 _ b _ (omega arith) (omega arith) (omega (arith, e, d)) (decode_end _ _)
  one_held encoded buffer b (c ∷ bytes) (e, d, q) (p, h) =
      decode_push buffer 7 _ b _ (omega arith) (omega arith) (omega (arith, e, d))
        (four_held _ _ c bytes (omega (arith, e, d), omega (arith, e, d), p) h)

  four_held :
      (encoded buffer b : ℕ) (bytes : List ℕ)
      → Splits 4 4 buffer b encoded
      → All IsByte bytes
      → decode_loop buffer 4 (encode_loop encoded 4 bytes) ≡ ok (b ∷ bytes)
  four_held encoded buffer b [] (e, d, q) h =
      decode_push buffer 4 _ b _ (omega arith) (omega arith) (omega (arith, e, d)) (decode_end _ _)
  four_held encoded buffer b (c ∷ bytes) (e, d, q) (p, h) =
      decode_push buffer 4 _ b _ (omega arith) (omega arith) (omega (arith, e, d)) (
        decode_more _ 1 _ _ (omega arith) (omega arith)
          (two_held _ _ c bytes (omega (arith, e, d), omega (arith, e, d), p) h))

  two_held :
      (encoded buffer b : ℕ) (bytes : List ℕ)
      → Splits 2 6 buffer b encoded
      → All IsByte bytes
      → decode_loop buffer 6 (encode_loop encoded 2 bytes) ≡ ok (b ∷ bytes)
  two_held encoded buffer b [] (e, d, q) h =
      decode_push buffer 6 _ b _ (omega arith) (omega arith) (omega (arith, e, d)) (decode_end _ _)
  two_held encoded buffer b (c ∷ bytes) (e, d, q) (p, h) =
      decode_push buffer 6 _ b _ (omega arith) (omega arith) (omega (arith, e, d)) (
        decode_push _ 3 _ c _ (omega arith) (omega arith) (omega (arith, e, d))
          (none_held _ _ bytes h))
