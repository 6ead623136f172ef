-- ===== src/Executor/Forms.antt =====
-- The form bodies of executor.rs: `parse_form_pairs`, `encode_form_body`, `merge_form_into_query`.
use qdrust.Base.{
  ◌==◌, Text, codes, is_empty, contains, split_by, split_once, join, Bool, true, not, none, some,
  List, [], ◌∷◌, ◌++◌, map, keep_if, if◌then◌else◌,
}
use qdrust.Executor.{Outside}

unfoldable pub plus_to_space : Text → Text
plus_to_space [] = []
plus_to_space (c ∷ cs) = (if c == b'+' then b' ' else c) ∷ plus_to_space cs

-- A part of a body without `=` is a name with the empty value.
unfoldable pub name_and_value : Text → Text × Text
name_and_value part = elim (split_once (codes "=") part) [ none ↦ (part, []) | some pair ↦ pair ]

unfoldable pub form_parts : Text → List Text
form_parts body = keep_if (λ p. not (is_empty p)) (split_by (λ c. c == b'&') body)

module _ {W : Type 0} (o : Outside W) where
  unfoldable pub form_urldecode : Text → Text
  unfolding plus_to_space
  form_urldecode input = o.percent_decode (plus_to_space input)

  decode_pair : Text × Text → Text × Text
  unfolding form_urldecode
  decode_pair (name, value) = (form_urldecode name, form_urldecode value)

  unfoldable pub parse_form_pairs : Text → List (Text × Text)
  unfolding decode_pair name_and_value form_parts
  parse_form_pairs body = map (λ part. decode_pair (name_and_value part)) (form_parts body)

  encode_pair : Text × Text → Text
  unfolding form_urldecode
  encode_pair (name, value) =
      o.percent_encode_form (form_urldecode name)
      ++ codes "="
      ++ o.percent_encode_form (form_urldecode value)

  unfoldable pub encode_form_body : Text → Text
  unfolding encode_pair name_and_value form_parts
  encode_form_body body =
      join (codes "&") (map (λ part. encode_pair (name_and_value part)) (form_parts body))

  -- Every pair but the first is joined by `&`; the first too, where the URL has a query.
  unfoldable pub append_pairs : Text → Bool → List (Text × Text) → Text
  append_pairs merged has_query [] = merged
  append_pairs merged has_query ((name, value) ∷ pairs) =
      append_pairs
        (merged
          ++ (if has_query then codes "&" else codes "?")
          ++ o.percent_encode name
          ++ codes "="
          ++ o.percent_encode value)
        true pairs

  unfoldable pub merge_form_into_query : Text → Text → Text
  unfolding append_pairs parse_form_pairs
  merge_form_into_query url body =
      append_pairs url (contains (codes "?") url) (parse_form_pairs body)
