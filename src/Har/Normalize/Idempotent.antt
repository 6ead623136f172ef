-- ===== src/Har/Normalize/Idempotent.antt =====
-- Normalising a document that has been normalised.
use qdrust.Base.{Text, text_eq, codes, true, false, Option, none, some, ◌≡◌, refl, ap, ◌∙◌}
use qdrust.Json.{Value, Items, Fields, null, bool, number, string, array, object, get_field}
use qdrust.Json.Objects.{
  has_field, or_insert, remove_field, alter_field, get_field-remove_field, get_field-alter_field,
  or_insert-same, remove_field-same, has_field-or_insert, or_insert-has_field, get_field-altered,
  get_field-or_inserted, has_field-alter_field, alter_field-again,
}
use qdrust.Har.Normalize.{
  normalize_request, members, hoist_key, hoist_value, normalize_with, hoist_rule, normalize_fields,
  normalize_entry, wrapped, entries_of, normalize_qd_document,
}
use qdrust.Har.Normalize.Bodies.{map_items-twice, normalize_request-twice}

hoist_value-has_field :
    (o : Option Value) (key j : Text) (entry : Fields)
    → has_field j entry ≡ true
    → has_field j (hoist_value o key entry) ≡ true
unfolding hoist_value
hoist_value-has_field none key j entry h = h
hoist_value-has_field (some v) key j entry h = has_field-or_insert key j v entry h

pub hoist_value-other :
    (o : Option Value) (key j : Text) (entry : Fields)
    → text_eq key j ≡ false
    → get_field j (hoist_value o key entry) ≡ get_field j entry
unfolding hoist_value
hoist_value-other none key j entry h = refl
hoist_value-other (some v) key j entry h = get_field-or_inserted key j v entry h

hoist_rule-has_field :
    (rule : Fields) (j : Text) (entry : Fields)
    → has_field j entry ≡ true
    → has_field j (hoist_rule rule entry) ≡ true
unfolding hoist_rule hoist_key
hoist_rule-has_field rule j entry h =
    hoist_value-has_field (get_field (codes "extract_variables") rule) (codes "extract_variables") j
      _
      (hoist_value-has_field (get_field (codes "failed_asserts") rule) (codes "failed_asserts") j _
        (hoist_value-has_field (get_field (codes "success_asserts") rule) (codes "success_asserts")
          j entry h))

-- Hoisting adds members of three names.
pub hoist_rule-other :
    (rule : Fields) (j : Text) (entry : Fields)
    → text_eq (codes "extract_variables") j ≡ false
    → text_eq (codes "failed_asserts") j ≡ false
    → text_eq (codes "success_asserts") j ≡ false
    → get_field j (hoist_rule rule entry) ≡ get_field j entry
unfolding hoist_rule hoist_key
hoist_rule-other rule j entry a b c =
    hoist_value-other (get_field (codes "extract_variables") rule) (codes "extract_variables") j _ a
    ∙ hoist_value-other (get_field (codes "failed_asserts") rule) (codes "failed_asserts") j _ b
    ∙ hoist_value-other (get_field (codes "success_asserts") rule) (codes "success_asserts") j entry
        c

normalize_fields-twice :
    (entry : Fields) → normalize_fields (normalize_fields entry) ≡ normalize_fields entry
unfolding normalize_fields hoist_rule hoist_key hoist_value members has_field
normalize_fields-twice entry =
    let enabled = or_insert (codes "checked") (bool true) entry in
    let bare = remove_field (codes "rule") enabled in
    let rule = members (get_field (codes "rule") enabled) in
    let hoisted = hoist_rule rule bare in
    let done = alter_field (codes "request") normalize_request hoisted in
    let checked_bare : has_field (codes "checked") bare ≡ true =
      rw (get_field-remove_field (codes "rule") (codes "checked") enabled)
        (or_insert-has_field (codes "checked") (bool true) entry) in
    let checked_done : has_field (codes "checked") done ≡ true =
      has_field-alter_field (codes "request") (codes "checked") normalize_request hoisted
      ∙ hoist_rule-has_field rule (codes "checked") bare checked_bare in
    let no_rule : get_field (codes "rule") done ≡ none =
      get_field-altered (codes "request") (codes "rule") normalize_request hoisted refl
      ∙ hoist_rule-other rule (codes "rule") bare refl refl refl
      ∙ get_field-remove_field (codes "rule") (codes "rule") enabled in
    rw
      (
        or_insert-same (codes "checked") (bool true) done checked_done,
        no_rule,
        remove_field-same (codes "rule") done no_rule,
      )
      (alter_field-again (codes "request") normalize_request (get_field (codes "request") hoisted)
        done normalize_request-twice
        (get_field-alter_field (codes "request") (codes "request") normalize_request hoisted))

normalize_entry-twice : (v : Value) → normalize_entry (normalize_entry v) ≡ normalize_entry v
unfolding normalize_entry
normalize_entry-twice null = refl
normalize_entry-twice (bool b) = refl
normalize_entry-twice (number n) = refl
normalize_entry-twice (string t) = refl
normalize_entry-twice (array vs) = refl
normalize_entry-twice (object entry) = ap object (normalize_fields-twice entry)

with_twice :
    (o : Option Items) (raw : Value)
    → entries_of raw ≡ o
    → normalize_qd_document (normalize_with o raw) ≡ normalize_with o raw
unfolding normalize_qd_document normalize_with wrapped entries_of
with_twice none raw h = rw h refl
with_twice (some entries) raw h =
    ap wrapped (map_items-twice normalize_entry entries normalize_entry-twice)

-- Normalising a document that has been normalised changes nothing.
pub normalize_qd_document-twice :
    (raw : Value) → normalize_qd_document (normalize_qd_document raw) ≡ normalize_qd_document raw
unfolding normalize_qd_document
normalize_qd_document-twice raw = with_twice (entries_of raw) raw refl
