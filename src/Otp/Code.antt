-- ===== src/Otp/Code.antt =====
-- `code` of crates/qdrust-core/src/totp.rs, and `verify` of crates/qdrust-server/src/totp.rs. The
-- release build is modelled, in which the power of ten wraps.
pub mod Shape
pub mod Window
use qdrust.Base.{
  ℕ, zero, suc, ◌+◌, ◌-◌, ◌*◌, ◌/◌, ◌%◌, ◌^◌, ◌==◌, leb, ltb, Text, codes, text_eq,
  to_ascii_lowercase, is_empty, is_whitespace, Bool, true, false, not, ◌&&◌, Option, none, some,
  List, [], ◌∷◌, ◌++◌, length, get_elem?, keep_if, all, Result, ok, err, ensure, ◌>>=◌, ◌>>◌,
  if◌then◌else◌,
}
use qdrust.Base.Decimal.{to_string}
use qdrust.Otp.Base32.{
  OtpError, bad_digits, bad_period, unsupported_algorithm, out_of_range, code_empty, code_malformed,
  u32_mod, decode_base32, is_kept,
}

pub data Hash : Type 0 where
  sha1 sha256 sha512 : Hash

unfoldable pub hash_of : Text → Result OtpError Hash
hash_of t =
    if text_eq t (codes "sha1")
    then ok sha1
    else if text_eq t (codes "sha256")
    then ok sha256
    else if text_eq t (codes "sha512")
    then ok sha512
    else err unsupported_algorithm

-- `u64::to_be_bytes`
unfoldable pub be_bytes : ℕ → ℕ → List ℕ
be_bytes zero n = []
be_bytes (suc k) n = n / 256 ^ k % 256 ∷ be_bytes k n

index_or_error : Option ℕ → Result OtpError ℕ
index_or_error none = err out_of_range
index_or_error (some b) = ok b

-- `digest[i]`, which panics out of range.
unfoldable pub byte_at : List ℕ → ℕ → Result OtpError ℕ
unfolding index_or_error
byte_at digest i = index_or_error (get_elem? digest i)

-- RFC 4226 dynamic truncation.
unfoldable pub truncate : List ℕ → Result OtpError ℕ
unfolding byte_at
truncate digest = do
  last ← byte_at digest (length digest - 1)
  let offset = last % 16
  a ← byte_at digest offset
  b ← byte_at digest (offset + 1)
  c ← byte_at digest (offset + 2)
  d ← byte_at digest (offset + 3)
  ok (a % 128 * 2 ^ 24 + b * 2 ^ 16 + c * 2 ^ 8 + d)

unfoldable pub zeros : ℕ → Text
zeros zero = []
zeros (suc n) = 48 ∷ zeros n

-- `format!("{code:0width$}")`
unfoldable pub pad_zeros : ℕ → Text → Text
unfolding zeros
pad_zeros width t = zeros (width - length t) ++ t

unfoldable pub ten_to : ℕ → ℕ
ten_to digits = 10 ^ digits % u32_mod

unfoldable pub is_digit : ℕ → Bool
is_digit c = leb 48 c && leb c 57

-- `now + step * 30`, at least 0, for the steps -1, 0 and 1.
abbrev pub skewed_times : ℕ → List ℕ
skewed_times now = (now - 30) ∷ now ∷ (now + 30) ∷ []

module _ (hmac : Hash → List ℕ → List ℕ → List ℕ) where
  unfoldable pub code : Text → ℕ → ℕ → Text → ℕ → Result OtpError Text
  unfolding hash_of be_bytes truncate pad_zeros ten_to
  code secret digits period algorithm at_time = do
    ensure (leb 6 digits && leb digits 10) bad_digits
    ensure (ltb 0 period) bad_period
    key ← decode_base32 secret
    hash ← hash_of (to_ascii_lowercase algorithm)
    binary ← truncate (hmac hash key (be_bytes 8 (at_time / period)))
    ok (pad_zeros digits (to_string (binary % ten_to digits)))

  unfoldable pub try_times : Text → Text → List ℕ → Result OtpError Bool
  unfolding code
  try_times secret submitted [] = ok false
  try_times secret submitted (t ∷ ts) = do
    let rest = try_times secret submitted ts
    expected ← code secret 6 30 (codes "sha1") t
    if text_eq expected submitted then ok true else rest

  unfoldable pub verify : Text → Text → ℕ → Result OtpError Bool
  unfolding try_times is_kept is_digit
  verify secret typed now = do
    let submitted = keep_if is_kept typed
    ensure (not (is_empty submitted)) code_empty
    ensure (length submitted == 6 && all is_digit submitted) code_malformed
    try_times secret submitted (skewed_times now)
