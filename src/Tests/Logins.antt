-- ===== src/Tests/Logins.antt =====
-- One-time codes, login attempts and identity headers, on small inputs.
use qdrust.Base.{
  ℕ, codes, Text, keep_if, true, false, Option, none, some, List, [], ◌∷◌, starts_with, ok, ◌≡◌,
  refl, arith, ◌↔◌, ◌⊎◌,
}
use qdrust.Base.Dict.{lookup}
use qdrust.Otp.Base32.{encode_base32, decode_base32, is_kept}
use qdrust.Otp.Base32.Normal.{decode_base32-encode_base32}
use qdrust.Otp.Code.{Hash, verify}
use qdrust.Otp.Code.Window.{IsLong, Near, login_code, verify-iff-code}
use qdrust.Outbound.{v4}
use qdrust.Auth.Limiter.{Limiter}
use qdrust.Auth.Limiter.Bounds.{failing, failing-count}
use qdrust.Auth.Headers.{
  HeaderAuthConfig, HeaderMap, is_trusted, extract_header_identity, header_auth_middleware, passes,
  refused,
}
use qdrust.Auth.Headers.Trust.{middleware-untrusted}

decode_base32-encode_base32_example :
    decode_base32 (encode_base32 (72 ∷ 105 ∷ 255 ∷ [])) ≡ ok (72 ∷ 105 ∷ 255 ∷ [])
decode_base32-encode_base32_example =
    decode_base32-encode_base32 72 (105 ∷ 255 ∷ []) (omega arith, (omega arith, (omega arith, tt)))

-- A secret with a blank, a small letter and padding.
abbrev pub secret : Text
secret = codes "JB swy3==="

secret_key : decode_base32 secret ≡ ok (72 ∷ 101 ∷ 108 ∷ [])
unfolding decode_base32
secret_key = refl

-- A digest that does not depend on its input, for running the definitions.
abbrev pub digest : Hash → List ℕ → List ℕ → List ℕ
digest hash key message =
    1 ∷ 2 ∷ 3 ∷ 4 ∷ 5 ∷ 6 ∷ 7 ∷ 8 ∷ 9 ∷ 10 ∷ 11 ∷ 12 ∷ 13 ∷ 14 ∷ 15 ∷ 16 ∷ 17 ∷ 18 ∷ 19 ∷ 2 ∷ []

pub digest-IsLong : IsLong digest
digest-IsLong = λ hash key message. omega arith

verify-iff-code_example :
    (verify digest secret (codes "595 078") 59 ≡ ok true)
    ↔ ((t : ℕ) × Near t 59 × (login_code digest secret t ≡ ok (keep_if is_kept (codes "595 078"))))
verify-iff-code_example = verify-iff-code digest secret (codes "595 078") 59 digest-IsLong

abbrev limiter : Limiter
limiter = record { max_attempts = 3; window = 60 }

failing-count_example : (failing limiter (codes "ann") (100 ∷ 110 ∷ 120 ∷ 130 ∷ []) []).0 ≡ 3
failing-count_example =
    failing-count limiter (codes "ann") 100 (110 ∷ 120 ∷ 130 ∷ []) [] (unfold lookup in refl)
      (omega arith, (omega arith, (omega arith, tt))) (omega arith) (omega arith)

-- Every text is a header's name, and every value a text.
abbrev as_is : Text → Option Text
as_is t = some t

abbrev proxied : HeaderAuthConfig
proxied = record {
  user_header = codes "x-user";
  email_header = codes "x-email";
  groups_header = codes "x-groups";
  groups_separator = codes ",";
  trusted_proxies = v4 10 0 0 1 ∷ [];
  trusted_proxy_required = false;
}

abbrev forged : HeaderMap
forged = (codes "accept", codes "*/*") ∷ (codes "x-user", codes "admin") ∷ []

middleware-untrusted_example :
    (header_auth_middleware as_is as_is (some proxied) (codes "/tasks") (some (v4 10 0 0 2)) forged
      ≡ refused)
    ⊎ ((left : HeaderMap) × (header_auth_middleware as_is as_is
            (some proxied)
            (codes "/tasks")
            (some (v4 10 0 0 2))
            forged
          ≡ passes left)
        × (extract_header_identity as_is as_is left proxied ≡ none))
unfolding starts_with is_trusted
middleware-untrusted_example =
    middleware-untrusted as_is as_is proxied (codes "/tasks") (some (v4 10 0 0 2)) forged refl refl
