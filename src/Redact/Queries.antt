-- ===== src/Redact/Queries.antt =====
-- What is left of a query that redact.rs has masked.
use mathlib.Core.Bool.{true≢false}
use mathlib.Core.Option.{some-injective, none-ne-some}
use qdrust.Base.{
  ℕ, ◌==◌, ==→eq, Text, codes, strip_prefix, split_once, split_by, push_first, join, map, Bool,
  true, false, some, List, [], ◌∷◌, ◌++◌, All, ◌≡◌, refl, sym, ap, append_assoc, subst, ◌∙◌,
  Bool-cases, Option-cases, inl, inr,
}
use qdrust.Redact.{mask, is_secret_name, masked, redact_pair, redact_pairs}

abbrev pub is_amp : ℕ → Bool
is_amp c = c == b'&'

abbrev is_equals : ℕ → Bool
is_equals c = b'=' == c

abbrev equals : Text
equals = codes "="

-- A text without a character that passes a test.
Without : (ℕ → Bool) → Text → Type 0
Without test t = All (λ c. test c ≡ false) t

split-part : (p : Text) → Without is_amp p → split_by is_amp p ≡ p ∷ []
unfolding split_by push_first Without
split-part [] h = refl
split-part (c ∷ p) (e, h) = rw (e, split-part p h) refl

split-append :
    (p t : Text) → Without is_amp p → split_by is_amp (p ++ b'&' ∷ t) ≡ p ∷ split_by is_amp t
unfolding split_by push_first Without
split-append [] t h = refl
split-append (c ∷ p) t (e, h) = rw (e, split-append p t h) refl

split-join :
    (p : Text) (ps : List Text)
    → Without is_amp p
    → All (Without is_amp) ps
    → split_by is_amp (join (codes "&") (p ∷ ps)) ≡ p ∷ ps
unfolding join
split-join p [] h k = split-part p h
split-join p (q ∷ ps) h (e, k) =
    ap (split_by is_amp) (append_assoc p (codes "&") (join (codes "&") (q ∷ ps)))
    ∙ split-append p (join (codes "&") (q ∷ ps)) h
    ∙ ap (λ r. p ∷ r) (split-join q ps e k)

parts-Without : (t : Text) → All (Without is_amp) (split_by is_amp t)
unfolding split_by push_first Without
parts-Without [] = (tt, tt)
parts-Without (c ∷ t) = elim (Bool-cases (is_amp c)) [
  | inl e ↦ rw e (tt, parts-Without t)
  | inr e ↦ rw e (pushed c (split_by is_amp t) e (parts-Without t))
]
  where
    pushed :
        (c : ℕ) (ps : List Text)
        → is_amp c ≡ false
        → All (Without is_amp) ps
        → All (Without is_amp) (push_first c ps)
    pushed c [] e h = ((e, tt), tt)
    pushed c (p ∷ ps) e (k, h) = ((e, k), h)

-- `split_once` at the first equals sign.
once-parts :
    (p : Text) {n v : Text}
    → split_once equals p ≡ some (n, v)
    → (p ≡ n ++ b'=' ∷ v) × Without is_equals n
unfolding split_once strip_prefix Without
once-parts [] {n} {v} h = absurd (none-ne-some (n, v) h)
once-parts (c ∷ p) {n} {v} h = elim (Bool-cases (b'=' == c)) [
  | inl e ↦
      subst (λ x. (c ∷ p ≡ x.0 ++ b'=' ∷ x.1) × Without is_equals x.0)
        (some-injective ([], p) (n, v) (rw (split_once, e) at h))
        (ap (λ d. d ∷ p) (sym (==→eq b'=' c e)), tt)
  | inr e ↦ elim (Option-cases (split_once equals p)) [
    | inl f ↦ absurd (none-ne-some (n, v) (rw (split_once, e, f) at h))
    | inr ((b, a), f) ↦
        let (whole, bare) = once-parts p f in
        subst (λ x. (c ∷ p ≡ x.0 ++ b'=' ∷ x.1) × Without is_equals x.0)
          (some-injective (c ∷ b, a) (n, v) (rw (split_once, e, f) at h))
          (ap (λ t. c ∷ t) whole, (e, bare))
  ]
]

once-append : (n v : Text) → Without is_equals n → split_once equals (n ++ b'=' ∷ v) ≡ some (n, v)
unfolding split_once strip_prefix Without
once-append [] v h = refl
once-append (c ∷ n) v (e, h) =
    let d : (b'=' == c) ≡ false = e in rw (split_once, d, once-append n v h) refl

-- A pair whose name is that of a secret has the mask as its value.
unfoldable pub IsMasked : Text → Type 0
IsMasked pair =
    (name value : Text)
    → split_once (codes "=") pair ≡ some (name, value)
    → is_secret_name name ≡ true
    → value ≡ mask

named-IsMasked : (n : Text) → Without is_equals n → IsMasked (n ++ (codes "=" ++ mask))
unfolding IsMasked
named-IsMasked n w name value h s =
    ap (λ x. x.1) (sym (some-injective (n, mask) (name, value) (sym (once-append n mask w) ∙ h)))

redact_pair-IsMasked : (pair : Text) → IsMasked (redact_pair pair)
unfolding redact_pair masked
redact_pair-IsMasked pair = elim (Option-cases (split_once equals pair)) [
  | inl e ↦
      rw e (unfold IsMasked in λ name value h s. absurd (none-ne-some (name, value) (sym e ∙ h)))
  | inr ((n, v), e) ↦ elim (Bool-cases (is_secret_name n)) [
    | inl s ↦ rw (e, s) (named-IsMasked n (once-parts pair e).1)
    | inr s ↦
        rw (e, s)
          (unfold IsMasked in
            λ name value h t.
              let same = some-injective (n, v) (name, value) (sym e ∙ h) in
              absurd (true≢false (sym t ∙ ap (λ x. is_secret_name x.0) (sym same) ∙ s)))
  ]
]

Without-front : (test : ℕ → Bool) (a b : Text) → Without test (a ++ b) → Without test a
unfolding Without
Without-front test [] b h = tt
Without-front test (c ∷ a) b (e, h) = (e, Without-front test a b h)

Without-append :
    (test : ℕ → Bool) (a b : Text) → Without test a → Without test b → Without test (a ++ b)
unfolding Without
Without-append test [] b h k = k
Without-append test (c ∷ a) b (e, h) k = (e, Without-append test a b h k)

redact_pair-Without : (pair : Text) → Without is_amp pair → Without is_amp (redact_pair pair)
unfolding redact_pair masked
redact_pair-Without pair w = elim (Option-cases (split_once equals pair)) [
  | inl e ↦ rw e w
  | inr ((n, v), e) ↦ elim (Bool-cases (is_secret_name n)) [
    | inl s ↦
        rw (e, s)
          (Without-append is_amp n (codes "=" ++ mask)
            (Without-front is_amp n (b'=' ∷ v) (subst (Without is_amp) (once-parts pair e).0 w))
            (unfold Without in (refl, (refl, (refl, (refl, tt))))))
    | inr s ↦ rw (e, s) w
  ]
]

map-Without : (ps : List Text) → All (Without is_amp) ps → All (Without is_amp) (map redact_pair ps)
map-Without [] h = tt
map-Without (p ∷ ps) (w, h) = (redact_pair-Without p w, map-Without ps h)

map-IsMasked : (ps : List Text) → All IsMasked (map redact_pair ps)
map-IsMasked [] = tt
map-IsMasked (p ∷ ps) = (redact_pair-IsMasked p, map-IsMasked ps)

some_part : (t : Text) → (p : Text) × (ps : List Text) × (split_by is_amp t ≡ p ∷ ps)
unfolding split_by push_first
some_part [] = ([], [], refl)
some_part (c ∷ t) = elim (Bool-cases (is_amp c)) [
  | inl e ↦ ([], split_by is_amp t, rw e refl)
  | inr e ↦ let (p, ps, h) = some_part t in (c ∷ p, ps, rw (e, h) refl)
]

-- The pairs of a masked query are those of the query, each masked.
parts-redacted :
    (query : Text) → split_by is_amp (redact_pairs query) ≡ map redact_pair (split_by is_amp query)
unfolding redact_pairs
parts-redacted query =
    let (p, ps, e) = some_part query in
    let (w, h) = subst (All (Without is_amp)) e (parts-Without query) in
    rw e
      (split-join (redact_pair p) (map redact_pair ps) (redact_pair-Without p w) (map-Without ps h))

redact_pair_twice : (pair : Text) → redact_pair (redact_pair pair) ≡ redact_pair pair
unfolding redact_pair masked
redact_pair_twice pair = elim (Option-cases (split_once equals pair)) [
  | inl e ↦ rw (e, e) refl
  | inr ((n, v), e) ↦ elim (Bool-cases (is_secret_name n)) [
    | inl s ↦ rw (e, s, once-append n mask (once-parts pair e).1, s) refl
    | inr s ↦ rw (e, s, e, s) refl
  ]
]

map-twice : (ps : List Text) → map redact_pair (map redact_pair ps) ≡ map redact_pair ps
map-twice [] = refl
map-twice (p ∷ ps) = rw (redact_pair_twice p, map-twice ps) refl

redact_pairs_twice : (query : Text) → redact_pairs (redact_pairs query) ≡ redact_pairs query
unfolding redact_pairs
redact_pairs_twice query =
    ap (join (codes "&"))
      (ap (map redact_pair) (parts-redacted query) ∙ map-twice (split_by is_amp query))

-- In a masked query no parameter whose name is that of a secret has another value than the mask,
-- and masking it again changes nothing.
pub redact_pairs-IsMasked :
    (query : Text)
    → All IsMasked (split_by is_amp (redact_pairs query))
      × (redact_pairs (redact_pairs query) ≡ redact_pairs query)
redact_pairs-IsMasked query =
    (rw (parts-redacted query) (map-IsMasked (split_by is_amp query)), redact_pairs_twice query)
