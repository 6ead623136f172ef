-- ===== src/Redact.antt =====
-- crates/qdrust-server/src/redact.rs: what is masked of a text before it is stored.
pub mod Queries
use qdrust.Base.{
  ℕ, zero, suc, ◌-◌, ◌==◌, leb, Text, codes, text_eq, is_whitespace, is_empty, starts_with,
  strip_suffix, split_once, split_by, join, to_ascii_lowercase, reverse, keep_if, map, any, is_some,
  Bool, true, false, not, ◌&&◌, ◌||◌, Option, none, some, List, [], ◌∷◌, ◌++◌, if◌then◌else◌,
}

abbrev pub mask : Text
mask = codes "***"

abbrev pub secret_words : List Text
secret_words =
    codes "token"
    ∷ codes "key"
    ∷ codes "sign"
    ∷ codes "signature"
    ∷ codes "sig"
    ∷ codes "secret"
    ∷ codes "password"
    ∷ codes "passwd"
    ∷ codes "pwd"
    ∷ codes "session"
    ∷ codes "sessionid"
    ∷ codes "cookie"
    ∷ codes "auth"
    ∷ codes "authorization"
    ∷ codes "credential"
    ∷ codes "ticket"
    ∷ codes "captcha"
    ∷ codes "code"
    ∷ []

is_alphanumeric : ℕ → Bool
is_alphanumeric c = leb b'0' c && leb c b'9' || leb b'a' c && leb c b'z' || leb b'A' c && leb c b'Z'

-- `ends_with` of a word, which covers the word itself.
unfoldable pub is_secret_name : Text → Bool
unfolding is_alphanumeric to_ascii_lowercase strip_suffix
is_secret_name name =
    let normalised = to_ascii_lowercase (keep_if is_alphanumeric name) in
    any (λ word. is_some (strip_suffix word normalised)) secret_words

unfoldable pub masked : Option (Text × Text) → Text → Text
unfolding is_secret_name
masked none pair = pair
masked (some (name, value)) pair = if is_secret_name name then name ++ (codes "=" ++ mask) else pair

unfoldable pub redact_pair : Text → Text
unfolding split_once masked
redact_pair pair = masked (split_once (codes "=") pair) pair

unfoldable pub redact_pairs : Text → Text
unfolding split_by join redact_pair
redact_pairs query = join (codes "&") (map redact_pair (split_by (λ c. c == b'&') query))

unfoldable pub redact_query : Text → Text
unfolding redact_pairs
redact_query query = if is_empty query then [] else codes "?" ++ redact_pairs query

-- The text before the first character that passes a test, and the text from it on.
unfoldable pub break_at : (ℕ → Bool) → Text → Text × Text
break_at test [] = ([], [])
break_at test (c ∷ t) =
    let rest = break_at test t in if test c then ([], c ∷ t) else (c ∷ rest.0, rest.1)

-- The text from the last `@` on, where there is one.
from_last_at : Text → Option Text
from_last_at [] = none
from_last_at (c ∷ t) = elim (from_last_at t) [
  | some s ↦ some s
  | none ↦ if c == b'@' then some (c ∷ t) else none
]

redact_authority : Option Text → Text → Text
redact_authority none authority = authority
redact_authority (some host) authority = mask ++ host

trim_questions : Text → Text
trim_questions [] = []
trim_questions (c ∷ t) = elim (c == b'?') [ true ↦ trim_questions t | false ↦ c ∷ t ]

unfoldable pub redact_url_body : Text → Text
unfolding break_at from_last_at redact_authority redact_query trim_questions
redact_url_body body =
    let (authority, rest) = break_at (λ c. c == b'/' || c == b'?' || c == b'#') body in
    let (before, fragment) = break_at (λ c. c == b'#') rest in
    let (path, query) = break_at (λ c. c == b'?') before in
    redact_authority (from_last_at authority) authority
    ++ path
    ++ redact_query (trim_questions query)
    ++ fragment

unfoldable pub ends_url : ℕ → Bool
ends_url c =
    c == 9
    || c == 10
    || c == 12
    || c == 13
    || c == 32
    || c == b'"'
    || c == b'\''
    || c == b'<'
    || c == b'>'
    || c == b'`'
    || c == b'\\'
    || c == b'|'
    || c == b','
    || c == b';'

unfoldable pub ends_token : ℕ → Bool
unfolding is_whitespace
ends_token c =
    is_whitespace c || c == b'"' || c == b'\'' || c == b',' || c == b';' || c == b')' || c == b'}'

-- A scan for a marker: outside, with some characters of the marker left, or collecting what
-- follows it.
pub data Scan : Type 0 where
  outside : Scan
  marker : ℕ → Scan
  within : Text → Scan

-- The marker, one less than its length, what ends the part behind it, and what becomes of that part.
module _ (mark : Text) (length_less : ℕ) (ends : ℕ → Bool) (change : Text → Text) where
  seek : Text → Scan
  seek text = if starts_with mark text then marker length_less else outside

  collect : ℕ → Text → Text → Text × Scan
  unfolding seek
  collect c t part =
      if ends c then (change part ++ c ∷ [], seek (c ∷ t)) else ([], within (part ++ c ∷ []))

  scan_step : ℕ → Text → Scan → Text × Scan
  unfolding collect seek
  scan_step c t outside = (c ∷ [], seek (c ∷ t))
  scan_step c t (marker zero) = collect c t []
  scan_step c t (marker (suc n)) = (c ∷ [], marker n)
  scan_step c t (within part) = collect c t part

  scan_end : Scan → Text
  scan_end outside = []
  scan_end (marker zero) = change []
  scan_end (marker (suc n)) = []
  scan_end (within part) = change part

  unfoldable pub scan : Text → Scan → Text
  unfolding scan_step scan_end
  scan [] s = scan_end s
  scan (c ∷ t) s = let out = scan_step c t s in out.0 ++ scan t out.1

unfoldable pub redact_urls : Text → Text
unfolding scan redact_url_body ends_url
redact_urls text = scan (codes "://") 2 ends_url redact_url_body text outside

redact_token : Text → Text
redact_token token = if is_empty token || text_eq token mask then token else mask

unfoldable pub redact_bearer : Text → Text
unfolding scan redact_token ends_token
redact_bearer text = scan (codes "Bearer ") 6 ends_token redact_token text outside

unfoldable pub redact : Text → Text
unfolding redact_urls redact_bearer
redact text = redact_bearer (redact_urls text)
