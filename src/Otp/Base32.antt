-- ===== src/Otp/Base32.antt =====
-- `decode_base32` of crates/qdrust-core/src/totp.rs, and `encode_base32` and `normalize_secret` of
-- crates/qdrust-server/src/totp.rs. The buffer is a u32; `|` joins disjoint bits, so it is a sum.
pub mod RoundTrip
pub mod Letters
pub mod Normal
use qdrust.Base.{
  ℕ, zero, suc, ◌+◌, ◌-◌, ◌*◌, ◌/◌, ◌%◌, ◌^◌, ◌==◌, leb, ltb, Text, codes, is_whitespace, is_empty,
  Bool, true, false, not, ◌&&◌, Option, none, some, or_else, List, [], ◌∷◌, ◌++◌, get_elem?,
  keep_if, map, Result, ok, err, ensure, ◌>>=◌, ◌>>◌, if◌then◌else◌,
}

pub data OtpError : Type 0 where
  bad_digits : OtpError
  bad_period : OtpError
  secret_empty : OtpError
  secret_too_short : OtpError
  bad_character : ℕ → OtpError
  unsupported_algorithm : OtpError
  out_of_range : OtpError
  code_empty : OtpError
  code_malformed : OtpError

abbrev pub u32_mod : ℕ
u32_mod = 2 ^ 32

abbrev pub alphabet : Text
alphabet = codes "ABCDEFGHIJKLMNOPQRSTUVWXYZ234567"

unfoldable pub letter : ℕ → ℕ
letter v = or_else (get_elem? alphabet v) 0

-- The inner loop of `encode_base32`, which ends within as many rounds as there are bits.
unfoldable pub drain : ℕ → ℕ → ℕ → Text × ℕ
drain zero buffer bits = ([], bits)
drain (suc rounds) buffer bits =
    let rest = drain rounds buffer (bits - 5) in
    if leb 5 bits then (letter (buffer / 2 ^ (bits - 5) % 32) ∷ rest.0, rest.1) else ([], bits)

unfoldable pub encode_loop : ℕ → ℕ → List ℕ → Text
unfolding drain
encode_loop buffer bits [] =
    if ltb 0 bits then letter (buffer * 2 ^ (5 - bits) % u32_mod % 32) ∷ [] else []
encode_loop buffer bits (byte ∷ bytes) =
    let next = buffer * 2 ^ 8 % u32_mod + byte in
    let drained = drain (bits + 8) next (bits + 8) in drained.0 ++ encode_loop next drained.1 bytes

unfoldable pub encode_base32 : List ℕ → Text
unfolding encode_loop
encode_base32 bytes = encode_loop 0 0 bytes

unfoldable pub ascii_upper : ℕ → ℕ
ascii_upper c = if leb b'a' c && leb c b'z' then c - 32 else c

unfoldable pub is_kept : ℕ → Bool
unfolding is_whitespace
is_kept c = not (is_whitespace c) && not (c == b'-')

-- `trim_end_matches('=')`
unfoldable pub trim_padding : Text → Text
trim_padding [] = []
trim_padding (c ∷ cs) =
    let rest = trim_padding cs in if is_empty rest && c == b'=' then [] else c ∷ rest

unfoldable pub clean : Text → Text
unfolding is_kept trim_padding ascii_upper
clean secret = map ascii_upper (trim_padding (keep_if is_kept secret))

unfoldable pub letter_value : ℕ → Option ℕ
letter_value c =
    if leb b'A' c && leb c b'Z'
    then some (c - 65)
    else if leb b'2' c && leb c b'7'
    then some (c - 50 + 26)
    else none

value_or_error : ℕ → Option ℕ → Result OtpError ℕ
value_or_error c none = err (bad_character c)
value_or_error c (some v) = ok v

unfoldable pub letter_result : ℕ → Result OtpError ℕ
unfolding letter_value value_or_error
letter_result c = value_or_error c (letter_value c)

-- The loop of `decode_base32`: the bytes that the rest of the text pushes.
unfoldable pub decode_loop : ℕ → ℕ → Text → Result OtpError (List ℕ)
unfolding letter_result
decode_loop buffer bits [] = ok []
decode_loop buffer bits (c ∷ cs) = do
  value ← letter_result c
  let next = buffer * 2 ^ 5 % u32_mod + value
  let left = if leb 8 (bits + 5) then bits + 5 - 8 else bits + 5
  rest ← decode_loop next left cs
  ok (if leb 8 (bits + 5) then next / 2 ^ left % 256 ∷ rest else rest)

unfoldable pub decode_base32 : Text → Result OtpError (List ℕ)
unfolding clean decode_loop
decode_base32 secret = do
  ensure (not (is_empty (clean secret))) secret_empty
  out ← decode_loop 0 0 (clean secret)
  ensure (not (is_empty out)) secret_too_short
  ok out

unfoldable pub normalize_secret : Text → Text
unfolding ascii_upper is_kept
normalize_secret secret = map ascii_upper (keep_if (λ c. is_kept c && not (c == b'=')) secret)
