-- ===== src/Outbound.antt =====
-- The guard of outbound connections in crates/qdrust-core/src/executor.rs.
pub mod Guard
pub mod Ranges
use qdrust.Base.{
  ℕ, ◌==◌, leb, Text, codes, text_eq, Bool, true, false, not, ◌&&◌, ◌||◌, all, is_empty, Option,
  none, some, List, [], ◌∷◌, Result, ok, err, ensure, ◌>>=◌, ◌>>◌,
}

-- The octets of an IPv4 address, and the 16-bit segments of an IPv6 address.
pub data IpAddr : Type 0 where
  v4 : ℕ → ℕ → ℕ → ℕ → IpAddr
  v6 : ℕ → ℕ → ℕ → ℕ → ℕ → ℕ → ℕ → ℕ → IpAddr

between : ℕ → ℕ → ℕ → Bool
between low high n = leb low n && leb n high

is_private : ℕ → ℕ → Bool
unfolding between
is_private a b = a == 10 || a == 172 && between 16 31 b || a == 192 && b == 168

is_documentation : ℕ → ℕ → ℕ → Bool
is_documentation a b c =
    a == 192 && b == 0 && c == 2
    || a == 198 && b == 51 && c == 100
    || a == 203 && b == 0 && c == 113

is_all : ℕ → ℕ → ℕ → ℕ → ℕ → Bool
is_all n a b c d = a == n && b == n && c == n && d == n

unfoldable pub is_public_ip : IpAddr → Bool
unfolding is_private is_documentation is_all between
is_public_ip (v4 a b c d) = not (
    is_private a b
    || a == 127
    || a == 169 && b == 254
    || is_all 255 a b c d
    || is_documentation a b c
    || is_all 0 a b c d
    || between 224 239 a
    || a == 0)
is_public_ip (v6 a b c d e f g h) = not (
    is_all 0 a b c d && is_all 0 e f g 0 && h == 1
    || is_all 0 a b c d && is_all 0 e f g h
    || leb 0xff00 a
    || between 0xfc00 0xfdff a
    || between 0xfe80 0xfebf a)

pub record OutboundPolicy : Type 0 where
  pub timeout : ℕ
  pub allow_private_network : Bool
  pub allow_invalid_certificates : Bool
  pub proxy : Option Text

-- What `reqwest::Url` reads off a URL: the port is that of the URL or the scheme's own.
pub record Url : Type 0 where
  pub scheme : Text
  pub host : Option Text
  pub port : Option ℕ

pub data OutboundError : Type 0 where
  invalid_target : OutboundError
  invalid_proxy : OutboundError
  unsupported_scheme : OutboundError
  host_missing : OutboundError
  port_missing : OutboundError
  cannot_resolve : OutboundError
  no_addresses : OutboundError
  blocked : OutboundError
  cannot_build : OutboundError

-- Where the client connects: the addresses that the host is pinned to, the proxy that it was
-- given, or a proxy that it takes from the environment of the process.
pub data Route : Type 0 where
  pinned : Text → List IpAddr → Route
  proxied : Url → Route
  by_environment : Text → Route

pub record Client : Type 0 where
  pub follows_redirects : Bool
  pub accepts_invalid_certificates : Bool
  pub timeout : ℕ
  pub keeps_cookies : Bool
  pub route : Route

unfoldable pub or_fail : {A : Type 0} → OutboundError → Option A → Result OutboundError A
or_fail e none = err e
or_fail e (some a) = ok a

unfoldable pub is_web : Text → Bool
is_web s = text_eq s (codes "http") || text_eq s (codes "https")

unfoldable pub is_proxy_scheme : Text → Bool
unfolding is_web
is_proxy_scheme s = is_web s || text_eq s (codes "socks5") || text_eq s (codes "socks5h")

-- A client that is given no proxy and not told `no_proxy` asks the environment (HTTP_PROXY,
-- HTTPS_PROXY) for one; its pins then play no part.
unfoldable pub unproxied : Text → List IpAddr → Option Text → Route
unproxied host addresses none = pinned host addresses
unproxied host addresses (some proxy) = by_environment proxy

-- The URL reader, the name service, whose answer may change from one lookup to the next, the
-- builder of reqwest, which may refuse, and the proxy that the environment has for a URL.
module _ (parse_url : Text → Option Url) (lookup_host : ℕ → Text → ℕ → Option (List IpAddr))
    (builds : Client → Bool) (system_proxy : Text → Option Text) where
  -- The part that `resolve_target` and `classify_proxy` share, from the scheme on.
  unfoldable pub classify_url :
      ℕ → (Text → Bool) → Bool → Url → Result OutboundError (Text × List IpAddr)
  unfolding or_fail
  classify_url turn allowed allow_private_network url = do
    ensure (allowed url.scheme) unsupported_scheme
    host ← or_fail host_missing url.host
    port ← or_fail port_missing url.port
    addresses ← or_fail cannot_resolve (lookup_host turn host port)
    ensure (not (is_empty addresses)) no_addresses
    ensure (allow_private_network || all is_public_ip addresses) blocked
    ok (host, addresses)

  unfoldable pub resolve_target : Text → Bool → Result OutboundError (Text × List IpAddr)
  unfolding classify_url is_web
  resolve_target url allow_private_network = do
    parsed ← or_fail invalid_target (parse_url url)
    classify_url 0 is_web allow_private_network parsed

  unfoldable pub classify_proxy : Text → Bool → Result OutboundError Url
  unfolding classify_url is_proxy_scheme
  classify_proxy proxy allow_private_network = do
    parsed ← or_fail invalid_proxy (parse_url proxy)
    found ← classify_url 1 is_proxy_scheme allow_private_network parsed
    ok parsed

  unfoldable pub route_for :
      OutboundPolicy → Text → Text × List IpAddr → Option Text → Result OutboundError Route
  unfolding classify_proxy unproxied
  route_for policy url (host, addresses) none = ok (unproxied host addresses (system_proxy url))
  route_for policy url (host, addresses) (some proxy) = do
    checked ← classify_proxy proxy policy.allow_private_network
    ok (proxied checked)

  unfoldable pub client_of : OutboundPolicy → Bool → Route → Client
  client_of policy with_cookies route = record {
    follows_redirects = false;
    accepts_invalid_certificates = policy.allow_invalid_certificates;
    timeout = policy.timeout;
    keeps_cookies = with_cookies;
    route = route;
  }

  unfoldable pub guarded_client_for_url : Text → OutboundPolicy → Bool → Result OutboundError Client
  unfolding resolve_target route_for client_of
  guarded_client_for_url url policy with_cookies = do
    target ← resolve_target url policy.allow_private_network
    route ← route_for policy url target policy.proxy
    ensure (builds (client_of policy with_cookies route)) cannot_build
    ok (client_of policy with_cookies route)
