-- ===== src/Tests/Codecs.antt =====
-- The codecs and the list of an expression, on small inputs.
use qdrust.Base.{ℕ, codes, true, false, Option, none, List, [], ◌∷◌, ◌≡◌, refl, arith}
use qdrust.Expression.Uu.{uuencode_line, uudecode_line, uudecode_line-uuencode_line}
use qdrust.Expression.Qp.{qp_encode, qp_decode, is_blank_byte}
use qdrust.Expression.Qp.RoundTrip.{qp_decode-qp_encode}

uudecode_line-uuencode_line_example :
    uudecode_line (uuencode_line (200 ∷ 0 ∷ 17 ∷ 99 ∷ [])) ≡ 200 ∷ 0 ∷ 17 ∷ 99 ∷ []
uudecode_line-uuencode_line_example =
    uudecode_line-uuencode_line 200 (0 ∷ 17 ∷ 99 ∷ [])
      (omega arith, (omega arith, (omega arith, (omega arith, tt)))) (omega arith)

-- The line of no bytes reads as three.
no_bytes : uudecode_line (uuencode_line []) ≡ 0 ∷ 0 ∷ 0 ∷ []
unfolding uudecode_line uuencode_line
no_bytes = refl

-- A blank that waits is put out behind the letters that follow it.
moved_blank : qp_encode (codes "a b") false true ≡ codes "ab=20"
unfolding qp_encode
moved_blank = refl

-- An escape with a sign is read as a byte.
signed_escape : qp_decode (codes "=+A") ≡ 10 ∷ []
unfolding qp_decode
signed_escape = refl

qp_decode-qp_encode_example :
    qp_decode (qp_encode (32 ∷ 61 ∷ 233 ∷ 10 ∷ []) true true) ≡ 32 ∷ 61 ∷ 233 ∷ 10 ∷ []
unfolding is_blank_byte
qp_decode-qp_encode_example =
    qp_decode-qp_encode true true (32 ∷ 61 ∷ 233 ∷ 10 ∷ [])
      ((omega arith, refl), ((omega arith, refl), ((omega arith, refl), ((omega arith, refl), tt))))

-- Numbers as the engine's values, of which 0 is the undefined one and none is a list.
abbrev no_items : ℕ → Option (List ℕ)
no_items v = none
