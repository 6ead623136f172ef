-- ===== src/Library.antt =====
-- `CatalogueCache` of crates/qdrust-server/src/library.rs: the catalogues of template sources by their
-- addresses. An instant is a number of seconds; a read is one step, and what the source answers is
-- given to it.
pub mod Served
use qdrust.Base.{
  ℕ, ◌-◌, ◌==◌, ltb, Text, Bool, true, false, not, ◌&&◌, keep_if, Option, none, some, List, [], ◌∷◌,
  Result, ok, err, if◌then◌else◌,
}
use qdrust.Base.Dict.{Dict, lookup, insert}

pub record CachedCatalogue (C : Type 0) : Type 0 where
  pub fetched_at : ℕ
  pub catalogue : C

abbrev pub catalogue_ttl : ℕ
catalogue_ttl = 90

abbrev pub Cache : Type 0 → Type 0
Cache C = Dict (CachedCatalogue C)

module _ {C : Type 0} where
  unfoldable pub is_recent : ℕ → ℕ → CachedCatalogue C → Bool
  is_recent max_age now hit = ltb (now - hit.fetched_at) max_age

  -- A copy that the read may be answered from.
  recent : ℕ → ℕ → Option (CachedCatalogue C) → Option (CachedCatalogue C)
  unfolding is_recent
  recent max_age now none = none
  recent max_age now (some hit) = if is_recent max_age now hit then some hit else none

  retained : ℕ → Cache C → Cache C
  unfolding is_recent
  retained now cache =
      keep_if (λ (entry : Text × CachedCatalogue C). is_recent catalogue_ttl now entry.1) cache

module _ {E C : Type 0} where
  fallback : E → Option (CachedCatalogue C) → Cache C → Result E (C × Bool) × Cache C
  fallback e none cache = (err e, cache)
  fallback e (some hit) cache = (ok (hit.catalogue, true), cache)

  fetched_answer : Text → Bool → ℕ → Result E C → Cache C → Result E (C × Bool) × Cache C
  unfolding fallback retained insert lookup
  fetched_answer url cacheable now (err e) cache =
      if cacheable then fallback e (lookup url cache) cache else (err e, cache)
  fetched_answer url cacheable now (ok c) cache =
      (ok (c, false), insert url (record { fetched_at = now; catalogue = c }) (retained now cache))

  answer :
      Option (CachedCatalogue C)
      → Text
      → Bool
      → ℕ
      → Result E C
      → Cache C
      → Result E (C × Bool) × Cache C
  unfolding fetched_answer
  answer (some hit) url cacheable now fetched cache = (ok (hit.catalogue, true), cache)
  answer none url cacheable now fetched cache = fetched_answer url cacheable now fetched cache

  unfoldable pub catalogue_via : Text → ℕ → ℕ → Result E C → Cache C → Result E (C × Bool) × Cache C
  unfolding answer recent lookup
  catalogue_via url max_age now fetched cache =
      let cacheable = not (max_age == 0) in
      answer (if cacheable then recent max_age now (lookup url cache) else none) url cacheable now
        fetched cache
