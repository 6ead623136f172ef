-- ===== src/Library/Served.antt =====
-- What the cache of catalogues serves, over any sequence of reads.
use qdrust.Base.{
  ℕ, ◌-◌, ◌<◌, ◌==◌, ltb→lt, Text, text_eq, text_eq→eq, Bool, true, false, or_else, Option, none,
  some, List, [], ◌∷◌, All, Result, ok, err, ok-injective, ◌≡◌, ◌≢◌, ◌⊎◌, refl, sym, ap, subst, ◌∙◌,
  arith, inl, inr, Bool-cases, Option-cases,
}
use qdrust.Base.Dict.{lookup, insert}
use qdrust.Library.{
  CachedCatalogue, Cache, catalogue_ttl, is_recent, recent, retained, fallback, fetched_answer,
  answer, catalogue_via,
}

pub record Read : Type 0 where
  pub url : Text
  pub max_age : ℕ
  pub now : ℕ

module _ {E C : Type 0} (source : ℕ → Text → Result E C) where
  -- What a copy says is what its source gave when it was fetched.
  Faithful : Text × CachedCatalogue C → Type 0
  Faithful entry = source entry.1.fetched_at entry.0 ≡ ok entry.1.catalogue

  unfoldable pub read : Read → Cache C → Result E (C × Bool) × Cache C
  unfolding catalogue_via
  read r cache = catalogue_via r.url r.max_age r.now (source r.now r.url) cache

  unfoldable pub reads : List Read → Cache C → Cache C
  unfolding read
  reads [] cache = cache
  reads (r ∷ rs) cache = reads rs (read r cache).1

  All-retained :
      (now : ℕ) (cache : Cache C) → All Faithful cache → All Faithful (retained now cache)
  unfolding retained
  All-retained now [] h = h
  All-retained now (entry ∷ cache) (p, h) =
      elim (Bool-cases (is_recent catalogue_ttl now entry.1)) [
        | inl e ↦ rw e (p, All-retained now cache h)
        | inr e ↦ rw e (All-retained now cache h)
      ]

  All-insert :
      (k : Text) (v : CachedCatalogue C) (cache : Cache C)
      → Faithful (k, v)
      → All Faithful cache
      → All Faithful (insert k v cache)
  unfolding insert
  All-insert k v [] p h = (p, tt)
  All-insert k v ((j, w) ∷ cache) p (q, h) = elim (Bool-cases (text_eq j k)) [
    | inl e ↦ rw e (p, h)
    | inr e ↦ rw e (q, All-insert k v cache p h)
  ]

  lookup-Faithful :
      (k : Text) (cache : Cache C) {hit : CachedCatalogue C}
      → All Faithful cache
      → lookup k cache ≡ some hit
      → Faithful (k, hit)
  unfolding lookup
  lookup-Faithful k [] h e = cc
  lookup-Faithful k ((j, w) ∷ cache) {hit} (p, h) e = elim (Bool-cases (text_eq j k)) [
    | inl f ↦
        (let same = ap (λ o. or_else o w) (rw f at e) in
          subst (λ v. Faithful (k, v)) same (subst (λ i. Faithful (i, w)) (text_eq→eq j k f) p))
    | inr f ↦ lookup-Faithful k cache h (rw f at e)
  ]

  fallback-cache :
      (e : E) (o : Option (CachedCatalogue C)) (cache : Cache C) → (fallback e o cache).1 ≡ cache
  unfolding fallback
  fallback-cache e none cache = refl
  fallback-cache e (some hit) cache = refl

  fetched-Faithful :
      (url : Text) (cacheable : Bool) (now : ℕ) (f : Result E C) (cache : Cache C)
      → source now url ≡ f
      → All Faithful cache
      → All Faithful (fetched_answer url cacheable now f cache).1
  unfolding fetched_answer Faithful
  fetched-Faithful url cacheable now (ok c) cache same h =
      All-insert url (record { fetched_at = now; catalogue = c }) (retained now cache) same
        (All-retained now cache h)
  fetched-Faithful url true now (err e) cache same h =
      rw (fallback-cache e (lookup url cache) cache) h
  fetched-Faithful url false now (err e) cache same h = h

  answer-Faithful :
      (o : Option (CachedCatalogue C)) (url : Text) (cacheable : Bool) (now : ℕ) (cache : Cache C)
      → All Faithful cache
      → All Faithful (answer o url cacheable now (source now url) cache).1
  unfolding answer
  answer-Faithful none url cacheable now cache h =
      fetched-Faithful url cacheable now (source now url) cache refl h
  answer-Faithful (some hit) url cacheable now cache h = h

  reads-Faithful :
      (rs : List Read) (cache : Cache C) → All Faithful cache → All Faithful (reads rs cache)
  unfolding reads read catalogue_via
  reads-Faithful [] cache h = h
  reads-Faithful (r ∷ rs) cache h = reads-Faithful rs _ (answer-Faithful _ r.url _ r.now cache h)

  -- What may be served: what the source gives now, or, where the read allows a copy, what the
  -- source gave at a time that is recent enough, or at any where it now gives an error.
  pub Fresh : Read → C → Bool → Type 0
  Fresh r c cached = (cached ≡ false) × (source r.now r.url ≡ ok c)

  pub Copied : Read → C → Bool → Type 0
  Copied r c cached =
      (cached ≡ true)
      × (r.max_age ≢ 0)
      × ((t : ℕ) × (source t r.url ≡ ok c)
          × ((r.now - t < r.max_age) ⊎ ((e : E) × (source r.now r.url ≡ err e))))

  fresh_lem :
      (r : Read) (cache : Cache C) (c : C) (cached : Bool) (f : Result E C)
      → source r.now r.url ≡ f
      → (fetched_answer r.url false r.now f cache).0 ≡ ok (c, cached)
      → Fresh r c cached
  unfolding fetched_answer Fresh
  fresh_lem r cache c cached (ok d) same h =
      let pair = ok-injective h in (sym (ap (λ p. p.1) pair), same ∙ ap ok (ap (λ p. p.0) pair))
  fresh_lem r cache c cached (err e) same h = cc

  copied_lem :
      (r : Read) (cache : Cache C) (c : C) (cached : Bool) (f : Result E C)
      (o : Option (CachedCatalogue C))
      → r.max_age ≢ 0
      → All Faithful cache
      → source r.now r.url ≡ f
      → lookup r.url cache ≡ o
      → (fetched_answer r.url true r.now f cache).0 ≡ ok (c, cached)
      → Fresh r c cached ⊎ Copied r c cached
  unfolding fetched_answer Fresh Copied fallback Faithful
  copied_lem r cache c cached (ok d) o some_age h same found e =
      let pair = ok-injective e in inl (sym (ap (λ p. p.1) pair), same ∙ ap ok (ap (λ p. p.0) pair))
  copied_lem r cache c cached (err d) none some_age h same found e = cc (rw (fallback, found) at e)
  copied_lem r cache c cached (err d) (some hit) some_age h same found e =
      let pair = ok-injective (rw (fallback, found) at e) in
      inr (
        sym (ap (λ p. p.1) pair),
        some_age,
        (
          hit.fetched_at,
          lookup-Faithful r.url cache h found ∙ ap ok (ap (λ p. p.0) pair),
          inr (d, same),
        ),
      )

  copy_lem :
      (r : Read) (cache : Cache C) (c : C) (cached : Bool) (hit : CachedCatalogue C)
      → r.max_age ≢ 0
      → All Faithful cache
      → lookup r.url cache ≡ some hit
      → is_recent r.max_age r.now hit ≡ true
      → ◌≡◌ {A = Result E (C × Bool)} (ok (hit.catalogue, true)) (ok (c, cached))
      → Copied r c cached
  unfolding Copied Faithful is_recent
  copy_lem r cache c cached hit some_age h found young e =
      let pair = ok-injective e in
      (
        sym (ap (λ p. p.1) pair),
        some_age,
        (
          hit.fetched_at,
          lookup-Faithful r.url cache h found ∙ ap ok (ap (λ p. p.0) pair),
          inl (ltb→lt (r.now - hit.fetched_at) r.max_age young),
        ),
      )

  read_lem :
      (r : Read) (cache : Cache C) (c : C) (cached : Bool)
      → All Faithful cache
      → (read r cache).0 ≡ ok (c, cached)
      → Fresh r c cached ⊎ Copied r c cached
  unfolding read catalogue_via
  read_lem r cache c cached h e = elim (Bool-cases (r.max_age == 0)) [
    | inl f ↦ inl (fresh_lem r cache c cached (source r.now r.url) refl (rw (f, answer) at e))
    | inr f ↦
        (let some_age : r.max_age ≢ 0 = λ g. grind (arith, f, g) in
          let copied = copied_lem r cache c cached (source r.now r.url) in
          elim (Option-cases (lookup r.url cache)) [
            | inl g ↦ copied none some_age h refl g (rw (f, g, recent, answer) at e)
            | inr (hit, g) ↦ elim (Bool-cases (is_recent r.max_age r.now hit)) [
              | inl l ↦
                  inr (
                    copy_lem r cache c cached hit some_age h g l
                      (rw (f, g, recent, l, answer) at e))
              | inr l ↦ copied (some hit) some_age h refl g (rw (f, g, recent, l, answer) at e)
            ]
          ])
  ]

  -- A catalogue that is served, after any reads from an empty cache, is what the source gives now;
  -- or, where the read does not ask for the present one, what it gave at a time less than the
  -- allowed age ago, or at some time where it now gives an error. The flag tells which.
  pub read-reads :
      (rs : List Read) (r : Read) (c : C) (cached : Bool)
      → (read r (reads rs [])).0 ≡ ok (c, cached)
      → Fresh r c cached ⊎ Copied r c cached
  read-reads rs r c cached e = read_lem r (reads rs []) c cached (reads-Faithful rs [] tt) e
