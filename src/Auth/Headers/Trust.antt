-- ===== src/Auth/Headers/Trust.antt =====
-- What a client that is no trusted proxy can do with identity headers.
use qdrust.Base.{
  Text, text_eq, text_eq_refl, text_eq_iff, starts_with, codes, false, Option, none, some, [], ◌∷◌,
  ◌≡◌, refl, ◌∙◌, arith, ◌⊎◌, inl, inr, if◌then◌else◌, Bool-cases, Option-cases,
}
use qdrust.Outbound.{IpAddr}
use qdrust.Auth.Headers.{
  HeaderAuthConfig, HeaderIdentity, HeaderMap, get, remove_header, header_value,
  extract_header_identity, strip_identity_headers, passes, refused, is_trusted, value_of, strip_one,
  gate_identity, header_auth_middleware,
}

get-remove :
    (name other : Text) (hs : HeaderMap)
    → get other (remove_header name hs) ≡ (if text_eq name other then none else get other hs)
unfolding get remove_header
get-remove name other [] = ground arith
get-remove name other ((n, v) ∷ hs) = ground (
  arith,
  text_eq_iff name other,
  text_eq_iff n name,
  text_eq_iff n other,
  get-remove name other hs,
)

module _ (header_name : Text → Option Text) (to_str : Text → Option Text) where
  gone :
      (name : Text) (o : Option Text) (hs : HeaderMap)
      → get name hs ≡ none
      → get name (strip_one header_name to_str o hs) ≡ none
  unfolding strip_one
  gone name none hs h = h
  gone name (some other) hs h = get-remove other name hs ∙ ground (arith, h)

  taken :
      (name : Text) (hs : HeaderMap) → get name (strip_one header_name to_str (some name) hs) ≡ none
  unfolding strip_one
  taken name hs = get-remove name name hs ∙ rw (text_eq_refl name) refl

  no_value :
      (hs : HeaderMap) (name : Text)
      → get name hs ≡ none
      → value_of header_name to_str hs (some name) ≡ none
  unfolding value_of
  no_value hs name h = rw h refl

  pub extract-strip :
      (cfg : HeaderAuthConfig) (hs : HeaderMap)
      → extract_header_identity header_name to_str
          (strip_identity_headers header_name to_str cfg hs)
          cfg
        ≡ none
  unfolding extract_header_identity strip_identity_headers header_value
  extract-strip cfg hs = elim (Option-cases (header_name cfg.user_header)) [
    | inl e ↦ rw e refl
    | inr (name, e) ↦
        let bare =
          gone name (header_name cfg.groups_header) _
            (gone name (header_name cfg.email_header) _ (taken name hs)) in
        rw (e, no_value _ name bare) refl
  ]

  decided :
      (cfg : HeaderAuthConfig) (source : Option IpAddr) (hs : HeaderMap)
      (found : Option HeaderIdentity)
      → is_trusted header_name to_str cfg source ≡ false
      → extract_header_identity header_name to_str hs cfg ≡ found
      → (gate_identity header_name to_str cfg source hs found ≡ refused)
        ⊎ ((left : HeaderMap) × (gate_identity header_name to_str cfg source hs found ≡ passes left)
            × (extract_header_identity header_name to_str left cfg ≡ none))
  unfolding gate_identity
  decided cfg source hs none t e = inr (hs, refl, e)
  decided cfg source hs (some identity) t e = elim (Bool-cases cfg.trusted_proxy_required) [
    | inl r ↦ inl (rw (t, r) refl)
    | inr r ↦
        inr (strip_identity_headers header_name to_str cfg hs, rw (t, r) refl, extract-strip cfg hs)
  ]

  -- A request from a source that is no trusted proxy, outside the paths of the login itself, is
  -- refused, or is handled with headers from which no identity can be read.
  pub middleware-untrusted :
      (cfg : HeaderAuthConfig) (path : Text) (source : Option IpAddr) (hs : HeaderMap)
      → starts_with (codes "/api/v1/auth") path ≡ false
      → is_trusted header_name to_str cfg source ≡ false
      → (header_auth_middleware header_name to_str (some cfg) path source hs ≡ refused)
        ⊎ ((left : HeaderMap) × (header_auth_middleware header_name to_str (some cfg) path source hs
              ≡ passes left)
            × (extract_header_identity header_name to_str left cfg ≡ none))
  unfolding header_auth_middleware
  middleware-untrusted cfg path source hs p t =
      rw p (decided cfg source hs (extract_header_identity header_name to_str hs cfg) t refl)
