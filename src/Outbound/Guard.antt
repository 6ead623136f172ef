-- ===== src/Outbound/Guard.antt =====
-- What a client that passed the outbound guard of executor.rs may connect to.
use qdrust.Base.{
  ℕ, Text, Bool, true, false, not, all, is_empty, Option, none, some, List, [], ◌∷◌, ok, All,
  ensure, >>=-elim, ensure-eq-ok, ok-injective, ◌≡◌, refl, ◌∙◌, sym, ap, subst, arith,
}
use qdrust.Outbound.{
  IpAddr, is_public_ip, OutboundPolicy, Url, OutboundError, Route, pinned, proxied, by_environment,
  unproxied, Client, or_fail, classify_url, resolve_target, classify_proxy, route_for, client_of,
  guarded_client_for_url, is_web, is_proxy_scheme,
}

all-All :
    (test : IpAddr → Bool) (xs : List IpAddr) → all test xs ≡ true → All (λ a. test a ≡ true) xs
all-All test [] h = tt
all-All test (x ∷ xs) h = (ground arith, all-All test xs (ground arith))

or_fail-ok :
    {A : Type 0} (e : OutboundError) (o : Option A) {a : A} → or_fail e o ≡ ok a → o ≡ some a
unfolding or_fail
or_fail-ok e none h = cc
or_fail-ok e (some b) h = ap some (ok-injective {a = b} h)

module _ (parse_url : Text → Option Url) (lookup_host : ℕ → Text → ℕ → Option (List IpAddr))
    (builds : Client → Bool) (system_proxy : Text → Option Text) where
  -- The name service answered for the host of the URL with these addresses, of which there is one
  -- and each is public.
  pub record IsVetted (turn : ℕ) (allowed : Text → Bool) (url : Url) (host : Text)
      (addresses : List IpAddr) : Type 0 where
    pub port : ℕ
    pub scheme_allowed : allowed url.scheme ≡ true
    pub host_named : url.host ≡ some host
    pub port_known : url.port ≡ some port
    pub answer : lookup_host turn host port ≡ some addresses
    pub answered : is_empty addresses ≡ false
    pub public : All (λ a. is_public_ip a ≡ true) addresses

  classify_url-IsVetted :
      (turn : ℕ) (allowed : Text → Bool) (url : Url) {host : Text} {addresses : List IpAddr}
      → classify_url parse_url lookup_host builds system_proxy turn allowed false url
        ≡ ok (host, addresses)
      → IsVetted turn allowed url host addresses
  unfolding classify_url
  classify_url-IsVetted turn allowed url {host} {addresses} h =
      >>=-elim (ensure (allowed url.scheme) _) _ h (λ _ e1 h.
        >>=-elim (or_fail _ url.host) _ h (λ n e2 h. >>=-elim (or_fail _ url.port) _ h (λ p e3 h.
          >>=-elim (or_fail _ (lookup_host turn n p)) _ h (λ found e4 h.
            >>=-elim (ensure (not (is_empty found)) _) _ h (λ _ e5 h.
              >>=-elim (ensure (all is_public_ip found) _) _ h (λ _ e6 h.
                subst (λ (x : Text × List IpAddr). IsVetted turn allowed url x.0 x.1)
                  (ok-injective {a = (n, found)} h)
                  (record {
                    port = p;
                    scheme_allowed = ensure-eq-ok _ _ e1;
                    host_named = or_fail-ok _ url.host e2;
                    port_known = or_fail-ok _ url.port e3;
                    answer = or_fail-ok _ (lookup_host turn n p) e4;
                    answered = ground (arith, ensure-eq-ok (not (is_empty found)) _ e5);
                    public = all-All is_public_ip found (ensure-eq-ok _ _ e6);
                  })))))))

  -- What the guard saw of a route. The addresses it is pinned to are those of the URL's host. A
  -- proxy that the policy names has public addresses. Of a proxy that the environment names for the
  -- URL, where the policy has none, nothing was seen.
  abbrev pub Guarded : Option Text → Text → Route → Type 0
  Guarded proxy url (pinned host addresses) =
      (proxy ≡ none)
      × (system_proxy url ≡ none)
      × ((u : Url) × (parse_url url ≡ some u) × IsVetted 0 is_web u host addresses)
  Guarded proxy url (proxied p) =
      (text : Text) × (host : Text) × (addresses : List IpAddr) × (proxy ≡ some text)
      × (parse_url text ≡ some p)
      × IsVetted 1 is_proxy_scheme p host addresses
  Guarded proxy url (by_environment p) = (proxy ≡ none) × (system_proxy url ≡ some p)

  -- The host of a URL, with addresses that are all public.
  abbrev pub IsChecked : Text → Text → List IpAddr → Type 0
  IsChecked url host addresses =
      (u : Url) × (parse_url url ≡ some u) × IsVetted 0 is_web u host addresses

  resolve_target-IsChecked :
      (url : Text) {host : Text} {addresses : List IpAddr}
      → resolve_target parse_url lookup_host builds system_proxy url false ≡ ok (host, addresses)
      → IsChecked url host addresses
  unfolding resolve_target
  resolve_target-IsChecked url {host} {addresses} h =
      >>=-elim (or_fail _ (parse_url url)) _ h
        (λ u e h. (u, or_fail-ok _ (parse_url url) e, classify_url-IsVetted 0 is_web u h))

  classify_proxy-Guarded :
      (url proxy : Text) {p : Url}
      → classify_proxy parse_url lookup_host builds system_proxy proxy false ≡ ok p
      → Guarded (some proxy) url (proxied p)
  unfolding classify_proxy
  classify_proxy-Guarded url proxy {p} h = >>=-elim (or_fail _ (parse_url proxy)) _ h (λ u e h.
      >>=-elim (classify_url parse_url lookup_host builds system_proxy 1 is_proxy_scheme false u) _
        h
        (λ found f h.
          let v =
            classify_url-IsVetted 1 is_proxy_scheme u {host = found.0} {addresses = found.1} f in
          let same = ok-injective {a = u} h in
          (
            proxy,
            found.0,
            found.1,
            refl,
            or_fail-ok _ (parse_url proxy) e ∙ ap some same,
            subst (λ x. IsVetted 1 is_proxy_scheme x found.0 found.1) same v,
          )))

  unproxied-Guarded :
      (url : Text) {host : Text} {addresses : List IpAddr} (proxy : Option Text)
      → system_proxy url ≡ proxy
      → IsChecked url host addresses
      → Guarded none url (unproxied host addresses proxy)
  unfolding unproxied
  unproxied-Guarded url none e t = (refl, e, t)
  unproxied-Guarded url (some p) e t = (refl, e)

  route-Guarded :
      (policy : OutboundPolicy) (url : Text) (target : Text × List IpAddr) (proxy : Option Text)
      {r : Route}
      → policy.allow_private_network ≡ false
      → resolve_target parse_url lookup_host builds system_proxy url false ≡ ok target
      → route_for parse_url lookup_host builds system_proxy policy url target proxy ≡ ok r
      → Guarded proxy url r
  unfolding route_for
  route-Guarded policy url (host, addresses) none off t h =
      subst (Guarded none url) (ok-injective {a = unproxied host addresses (system_proxy url)} h) (
        unproxied-Guarded url {host = host} {addresses = addresses} (system_proxy url) refl
          (resolve_target-IsChecked url t))
  route-Guarded policy url (host, addresses) (some proxy) off t h =
      >>=-elim
        (classify_proxy parse_url lookup_host builds system_proxy proxy
          policy.allow_private_network)
        _ h
        (λ p e h.
          subst (Guarded (some proxy) url) (ok-injective {a = proxied p} h)
            (classify_proxy-Guarded url proxy (rw off at e)))

  -- With the private networks switched off, a client that the guard gives follows no redirect, the
  -- URL's own host had public addresses only, and its route is one of three: to exactly addresses of
  -- that host that were checked, where neither the policy nor the environment names a proxy; to the
  -- policy's proxy, whose addresses were all public; or, where the policy names none, to the proxy
  -- that the environment names for the URL, which was not checked.
  pub guarded_client_for_url-Guarded :
      (policy : OutboundPolicy) (url : Text) (with_cookies : Bool) {c : Client}
      → policy.allow_private_network ≡ false
      → guarded_client_for_url parse_url lookup_host builds system_proxy url policy with_cookies
        ≡ ok c
      → (c.follows_redirects ≡ false)
        × ((host : Text) × (addresses : List IpAddr) × IsChecked url host addresses)
        × Guarded policy.proxy url c.route
  unfolding guarded_client_for_url
  guarded_client_for_url-Guarded policy url with_cookies {c} off h =
      >>=-elim
        (resolve_target parse_url lookup_host builds system_proxy url policy.allow_private_network)
        _ h
        (λ t e h.
          >>=-elim (route_for parse_url lookup_host builds system_proxy policy url t policy.proxy) _
            h
            (λ r f h.
              let made =
                client_of parse_url lookup_host builds system_proxy policy with_cookies r in
              >>=-elim (ensure (builds made) _) _ h (λ _ _ h.
                let g = rw off at e in
                let i = ok-injective {a = made} h in
                (
                  ap (λ (x : Client). x.follows_redirects) (sym i),
                  (t.0, t.1, resolve_target-IsChecked url g),
                  subst (Guarded policy.proxy url) (ap (λ (x : Client). x.route) i)
                      (route-Guarded policy url t policy.proxy off g f),
                ))))
