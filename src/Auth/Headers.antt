-- ===== src/Auth/Headers.antt =====
-- Identity headers of a proxy: crates/qdrust-server/src/header_auth.rs, and the decision of
-- `header_auth_middleware` in api.rs. A header map lists names and values, the names in lower case.
pub mod Trust
use qdrust.Base.{
  ℕ, zero, suc, ◌==◌, ◌&&◌, ◌++◌, length, Text, text_eq, trim, starts_with, is_blank, is_empty,
  split_once, strip_prefix, codes, Bool, true, false, not, Option, none, some, List, [], ◌∷◌, any,
  keep_if, map, if◌then◌else◌,
}
use qdrust.Outbound.{IpAddr, v4, v6}

pub record HeaderAuthConfig : Type 0 where
  pub user_header : Text
  pub email_header : Text
  pub groups_header : Text
  pub groups_separator : Text
  pub trusted_proxies : List IpAddr
  pub trusted_proxy_required : Bool

pub record HeaderIdentity : Type 0 where
  pub username : Text
  pub email : Option Text
  pub groups : List Text

abbrev pub HeaderMap : Type 0
HeaderMap = List (Text × Text)

-- The parts between the occurrences of a separator; the fuel is the length of the text.
split_parts : ℕ → Text → Text → List Text
split_parts zero sep t = t ∷ []
split_parts (suc fuel) sep t = elim (split_once sep t) [
  | none ↦ t ∷ []
  | some (part, rest) ↦ part ∷ split_parts fuel sep rest
]

-- `str::split`: by an empty separator it gives each character, between two empty parts.
unfoldable pub split_on : Text → Text → List Text
unfolding split_parts split_once
split_on sep t =
    if is_empty sep then [] ∷ (map (λ c. c ∷ []) t ++ [] ∷ []) else split_parts (length t) sep t

unfoldable pub parse_groups : Text → Text → List Text
unfolding split_on trim
parse_groups value separator = keep_if (λ g. not (is_empty g)) (map trim (split_on separator value))

unfoldable pub same_ip : IpAddr → IpAddr → Bool
same_ip (v4 a b c d) (v4 x y z w) = a == x && b == y && c == z && d == w
same_ip (v6 a b c d e f g h) (v6 p q r s t u v w) =
    a == p && b == q && c == r && d == s && e == t && f == u && g == v && h == w
same_ip (v4 a b c d) (v6 p q r s t u v w) = false
same_ip (v6 a b c d e f g h) (v4 x y z w) = false

unfoldable pub source_is_trusted : IpAddr → List IpAddr → Bool
unfolding same_ip
source_is_trusted remote trusted = any (same_ip remote) trusted

unfoldable pub get : Text → HeaderMap → Option Text
get name [] = none
get name ((n, v) ∷ hs) = if text_eq n name then some v else get name hs

unfoldable pub remove_header : Text → HeaderMap → HeaderMap
remove_header name [] = []
remove_header name ((n, v) ∷ hs) =
    let rest = remove_header name hs in if text_eq n name then rest else (n, v) ∷ rest

-- What the header library makes of a configured name, and of a value as a text.
module _ (header_name : Text → Option Text) (to_str : Text → Option Text) where
  readable : Option Text → Option Text
  readable none = none
  readable (some v) = to_str v

  unfoldable pub value_of : HeaderMap → Option Text → Option Text
  unfolding get readable
  value_of headers none = none
  value_of headers (some name) = readable (get name headers)

  unfoldable pub header_value : HeaderMap → Text → Option Text
  unfolding value_of
  header_value headers name = value_of headers (header_name name)

  unless_blank : Option Text → Option Text
  unless_blank none = none
  unless_blank (some t) = if is_blank t then none else some (trim t)

  groups_of : Text → Option Text → List Text
  unfolding parse_groups
  groups_of separator none = []
  groups_of separator (some v) = parse_groups v separator

  unfoldable pub identity_of : HeaderAuthConfig → HeaderMap → Option Text → Option HeaderIdentity
  unfolding unless_blank groups_of header_value
  identity_of cfg headers none = none
  identity_of cfg headers (some user) =
      if is_empty (trim user)
      then none
      else some (record {
        username = trim user;
        email = unless_blank (header_value headers cfg.email_header);
        groups = groups_of cfg.groups_separator (header_value headers cfg.groups_header);
      })

  unfoldable pub extract_header_identity : HeaderMap → HeaderAuthConfig → Option HeaderIdentity
  unfolding identity_of
  extract_header_identity headers cfg =
      identity_of cfg headers (header_value headers cfg.user_header)

  unfoldable pub strip_one : Option Text → HeaderMap → HeaderMap
  unfolding remove_header
  strip_one none headers = headers
  strip_one (some name) headers = remove_header name headers

  unfoldable pub strip_identity_headers : HeaderAuthConfig → HeaderMap → HeaderMap
  unfolding strip_one
  strip_identity_headers cfg headers =
      strip_one (header_name cfg.groups_header)
        (strip_one (header_name cfg.email_header) (strip_one (header_name cfg.user_header) headers))

  -- What becomes of a request: it is handled with these headers, refused, or taken as this user's.
  pub data Gate : Type 0 where
    passes : HeaderMap → Gate
    refused : Gate
    trusts : HeaderIdentity → Gate

  unfoldable pub is_trusted : HeaderAuthConfig → Option IpAddr → Bool
  unfolding source_is_trusted
  is_trusted cfg none = false
  is_trusted cfg (some ip) = source_is_trusted ip cfg.trusted_proxies

  unfoldable pub gate_identity :
      HeaderAuthConfig → Option IpAddr → HeaderMap → Option HeaderIdentity → Gate
  unfolding is_trusted strip_identity_headers
  gate_identity cfg source headers none = passes headers
  gate_identity cfg source headers (some identity) =
      if is_trusted cfg source
      then trusts identity
      else if cfg.trusted_proxy_required
      then refused
      else passes (strip_identity_headers cfg headers)

  unfoldable pub header_auth_middleware :
      Option HeaderAuthConfig → Text → Option IpAddr → HeaderMap → Gate
  unfolding gate_identity extract_header_identity
  header_auth_middleware none path source headers = passes headers
  header_auth_middleware (some cfg) path source headers =
      if starts_with (codes "/api/v1/auth") path
      then passes headers
      else gate_identity cfg source headers (extract_header_identity headers cfg)
