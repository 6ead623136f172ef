-- ===== src/Tests/Imports.antt =====
-- An export of QD: an array of one entry, with a body, a rule and no flags.
use qdrust.Base.{codes, true, ◌≡◌, refl}
use qdrust.Json.{
  Value, Fields, bool, string, array, object, no_items, item, no_fields, field, get_field,
}
use qdrust.Har.Normalize.{normalize_fields, normalize_qd_document}
use qdrust.Har.Normalize.Idempotent.{normalize_qd_document-twice}
use qdrust.Har.Normalize.Members.{expected, get_field-normalize_fields}

abbrev params : Value
params = array (
    item
      (object (
        field (codes "name") (string (codes "a"))
          (field (codes "value") (string (codes "1 2")) no_fields)))
      no_items)

abbrev entry : Fields
entry =
    field (codes "request")
      (object
        (field (codes "postData") (object (field (codes "params") params no_fields)) no_fields))
      (field (codes "rule") (object (field (codes "failed_asserts") (array no_items) no_fields))
        no_fields)

abbrev export : Value
export = array (item (object entry) no_items)

-- The flag and the list of the rule are put in order, and the body is written from the parameters.
normalized :
    normalize_fields entry
    ≡ field (codes "checked") (bool true) (
        field (codes "failed_asserts") (array no_items) (
          field
            (codes "request")
            (object (
              field
                (codes "postData")
                (object (
                  field
                    (codes "params")
                    params
                    (field (codes "text") (string (codes "a=1%202")) no_fields)))
                no_fields))
            no_fields))
unfolding normalize_fields
normalized = refl

normalize_qd_document-twice_example :
    normalize_qd_document (normalize_qd_document export) ≡ normalize_qd_document export
normalize_qd_document-twice_example = normalize_qd_document-twice export

get_field-normalize_fields_example :
    get_field (codes "failed_asserts") (normalize_fields entry)
    ≡ expected (codes "failed_asserts") entry
get_field-normalize_fields_example = get_field-normalize_fields (codes "failed_asserts") entry refl
