-- ===== src/Expression/Qp.antt =====
-- Quoted-printable text of expression.rs, `b2a_qp` and `a2b_qp`. A text is the list of its bytes.
pub mod RoundTrip
use qdrust.Base.{
  ℕ, zero, suc, ◌+◌, ◌-◌, ◌*◌, ◌/◌, ◌%◌, ◌≤◌, ◌<◌, ◌==◌, ltb, leb, Text, codes, Bool, true, false,
  not, ◌&&◌, ◌||◌, is_empty, Option, none, some, List, [], ◌∷◌, ◌++◌, length, All, if◌then◌else◌,
  ◌≡◌, refl, ap, ◌∙◌, append_assoc, append-nil, arith, Bool-cases, inl, inr, ◌⊎◌,
}

-- What a byte is to the encoder: a line's end, a blank that waits, or a token that is put out.
pub data Token : Type 0 where
  line_end : Token
  waits : ℕ → Token
  plain : Text → Token

unfoldable pub upper_hex : ℕ → ℕ
upper_hex n = if ltb n 10 then 48 + n else 55 + n

unfoldable pub is_blank_byte : ℕ → Bool
is_blank_byte b = b == b' ' || b == b'\t'

unfoldable pub escaped : ℕ → Text
unfolding upper_hex
escaped b = b'=' ∷ upper_hex (b / 16) ∷ upper_hex (b % 16) ∷ []

-- `quotetabs` and `istext` are the two switches of `b2a_qp`.
unfoldable pub token : Bool → Bool → ℕ → Token
unfolding is_blank_byte escaped
token quotetabs istext b =
    if b == b'='
    then plain (codes "=3D")
    else if b == 13 && istext
    then plain (13 ∷ [])
    else if b == 10 && istext
    then line_end
    else if is_blank_byte b && not quotetabs
    then waits b
    else if leb 0x21 b && leb b 0x7e
    then plain (b ∷ [])
    else plain (escaped b)

-- A single blank that ends a line is escaped.
unfoldable pub flush_pending : List ℕ → Text
flush_pending [] = []
flush_pending (b ∷ []) =
    if b == b' ' then codes "=20" else if b == b'\t' then codes "=09" else b ∷ []
flush_pending (b ∷ c ∷ pending) = b ∷ c ∷ pending

-- The length of the line so far, and the blanks that wait.
pub record QpState : Type 0 where
  pub line_len : ℕ
  pub pending : List ℕ

unfoldable pub put_plain : Text → QpState → Text × QpState
unfolding flush_pending
put_plain t s =
    if ltb 75 (s.line_len + length t)
    then (
      flush_pending s.pending ++ codes "=\r\n" ++ t,
      record { line_len = length t; pending = [] },
    )
    else (t, record s { line_len = s.line_len + length t })

unfoldable pub put_token : Token → QpState → Text × QpState
unfolding put_plain
put_token line_end s = (flush_pending s.pending ++ 10 ∷ [], record { line_len = 0; pending = [] })
put_token (waits b) s = ([], record s { pending = s.pending ++ b ∷ [] })
put_token (plain t) s = put_plain t s

unfoldable pub qp_loop : Bool → Bool → List ℕ → QpState → Text
unfolding put_token token
qp_loop quotetabs istext [] s = flush_pending s.pending
qp_loop quotetabs istext (b ∷ bytes) s =
    let out = put_token (token quotetabs istext b) s in
    out.0 ++ qp_loop quotetabs istext bytes out.1

unfoldable pub qp_encode : List ℕ → Bool → Bool → Text
unfolding qp_loop
qp_encode bytes quotetabs istext =
    qp_loop quotetabs istext bytes (record { line_len = 0; pending = [] })

unfoldable pub hex_digit : ℕ → Option ℕ
hex_digit c =
    if leb 48 c && leb c 57
    then some (c - 48)
    else if leb 65 c && leb c 70
    then some (c - 55)
    else if leb 97 c && leb c 102
    then some (c - 87)
    else none

hex_pair : Option ℕ → Option ℕ → Option ℕ
hex_pair none low = none
hex_pair (some h) none = none
hex_pair (some h) (some l) = some (h * 16 + l)

-- `u8::from_str_radix` of two characters, which takes a sign `+` as well.
unfoldable pub from_hex : ℕ → ℕ → Option ℕ
unfolding hex_digit hex_pair
from_hex c d = if c == b'+' then hex_digit d else hex_pair (hex_digit c) (hex_digit d)

-- An escape that cannot be read is kept.
unfoldable pub qp_decode : Text → List ℕ
unfolding from_hex
qp_decode [] = []
qp_decode (b ∷ []) = b ∷ []
qp_decode (b ∷ c ∷ []) = elim (b == b'=' && (c == 10 || c == 13)) [ true ↦ [] | false ↦ b ∷ c ∷ [] ]
qp_decode (b ∷ c ∷ d ∷ text) = elim (b == b'=') [
  | false ↦ b ∷ qp_decode (c ∷ d ∷ text)
  | true ↦ elim (c == 10 || c == 13) [
    | true ↦ elim (c == 13 && d == 10) [ true ↦ qp_decode text | false ↦ qp_decode (d ∷ text) ]
    | false ↦ elim (from_hex c d) [
      | none ↦ b ∷ qp_decode (c ∷ d ∷ text)
      | some v ↦ v ∷ qp_decode text
    ]
  ]
]
