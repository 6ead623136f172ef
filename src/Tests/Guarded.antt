-- ===== src/Tests/Guarded.antt =====
-- A client for a public host and a proxy.
use qdrust.Base.{
  arith, any, not, ◌||◌, ℕ, zero, suc, Text, codes, text_eq, Bool, true, false, Option, none, some,
  List, [], ◌∷◌, ok, ◌≡◌, refl, if◌then◌else◌,
}
use qdrust.Outbound.{
  IpAddr, v4, v6, OutboundPolicy, Url, proxied, by_environment, unproxied, Client,
  guarded_client_for_url, is_public_ip,
}
use qdrust.Outbound.Ranges.{address, lies_in, special_blocks, open_blocks, is_public_ip-blocks}
use qdrust.Outbound.Guard.{Guarded, IsChecked, guarded_client_for_url-Guarded}

abbrev parse_url : Text → Option Url
parse_url t =
    if text_eq t (codes "https://host/")
    then some (record { scheme = codes "https"; host = some (codes "host"); port = some 443 })
    else if text_eq t (codes "socks5://gate")
    then some (record { scheme = codes "socks5"; host = some (codes "gate"); port = some 1080 })
    else none

-- The second lookup of the host would give a private address.
abbrev lookup_host : ℕ → Text → ℕ → Option (List IpAddr)
lookup_host zero name port = some (v4 93 184 216 34 ∷ v6 0x2606 0x2800 0x220 1 0 0 0 1 ∷ [])
lookup_host (suc n) name port =
    if text_eq name (codes "gate") then some (v4 8 8 4 4 ∷ []) else some (v4 10 0 0 1 ∷ [])

abbrev builds : Client → Bool
builds c = true

abbrev system_proxy : Text → Option Text
system_proxy url = some (codes "http://10.0.0.1:3128")

abbrev policy : OutboundPolicy
policy = record {
  timeout = 30;
  allow_private_network = false;
  allow_invalid_certificates = false;
  proxy = some (codes "socks5://gate");
}

gate : Url
gate = record { scheme = codes "socks5"; host = some (codes "gate"); port = some 1080 }

client : Client
client = record {
  follows_redirects = false;
  accepts_invalid_certificates = false;
  timeout = 30;
  keeps_cookies = true;
  route = proxied gate;
}

builds-client :
    guarded_client_for_url parse_url lookup_host builds system_proxy
      (codes "https://host/")
      policy
      true
    ≡ ok client
unfolding guarded_client_for_url client gate is_public_ip
builds-client = refl

guarded_client_for_url-Guarded_example :
    (client.follows_redirects ≡ false)
    × ((host : Text) × (addresses : List IpAddr) × IsChecked parse_url lookup_host builds
          system_proxy
          (codes "https://host/")
          host
          addresses)
    × Guarded parse_url lookup_host builds system_proxy policy.proxy
        (codes "https://host/")
        client.route
guarded_client_for_url-Guarded_example =
    guarded_client_for_url-Guarded parse_url lookup_host builds system_proxy policy
      (codes "https://host/") true refl builds-client

-- Where the policy names no proxy, that of the environment is taken, a private one too.
route_by_environment :
    guarded_client_for_url parse_url lookup_host builds system_proxy
      (codes "https://host/")
      (record policy { proxy = none })
      true
    ≡ ok (record client { route = by_environment (codes "http://10.0.0.1:3128") })
unfolding guarded_client_for_url client is_public_ip unproxied
route_by_environment = refl

is_public_ip-blocks_example : is_public_ip (v4 100 100 100 200) ≡ (
    not (any (lies_in (address 100 100 100 200)) special_blocks)
    || any (lies_in (address 100 100 100 200)) open_blocks)
is_public_ip-blocks_example =
    is_public_ip-blocks 100 100 100 200 (omega arith) (omega arith) (omega arith) (omega arith)
