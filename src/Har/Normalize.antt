-- ===== src/Har/Normalize.antt =====
-- `normalize_qd_document` of crates/qdrust-core/src/qd_har.rs: the shapes that exports of QD have,
-- brought to the one that the reader takes. A text is encoded by the bytes of its UTF-8.
pub mod Bodies
pub mod Idempotent
pub mod Members
use qdrust.Base.{
  ℕ, ◌+◌, ◌*◌, ◌/◌, ◌%◌, ◌==◌, ltb, leb, Text, codes, join, Bool, true, false, ◌&&◌, ◌||◌, not,
  Option, none, some, List, [], ◌∷◌, ◌++◌, is_some, if◌then◌else◌,
}
use qdrust.Json.{
  Value, Items, Fields, null, bool, string, array, object, no_items, item, no_fields, field,
  get_field, as_str,
}
use qdrust.Json.Objects.{has_field, or_insert, insert_field, remove_field, alter_field}

utf8 : ℕ → List ℕ
utf8 c =
    if ltb c 0x80
    then c ∷ []
    else if ltb c 0x800
    then (0xc0 + c / 64) ∷ (0x80 + c % 64) ∷ []
    else if ltb c 0x10000
    then (0xe0 + c / 4096) ∷ (0x80 + c / 64 % 64) ∷ (0x80 + c % 64) ∷ []
    else (0xf0 + c / 262144) ∷ (0x80 + c / 4096 % 64) ∷ (0x80 + c / 64 % 64) ∷ (0x80 + c % 64) ∷ []

upper_hex : ℕ → ℕ
upper_hex d = if ltb d 10 then 48 + d else 55 + d

is_unreserved : ℕ → Bool
is_unreserved b =
    leb 65 b && leb b 90
    || leb 97 b && leb b 122
    || leb 48 b && leb b 57
    || b == 45
    || b == 46
    || b == 95
    || b == 126

encode_byte : ℕ → Text
unfolding is_unreserved upper_hex
encode_byte b =
    if is_unreserved b then b ∷ [] else 37 ∷ upper_hex (b / 16) ∷ upper_hex (b % 16) ∷ []

encode_bytes : List ℕ → Text
unfolding encode_byte
encode_bytes [] = []
encode_bytes (b ∷ bs) = encode_byte b ++ encode_bytes bs

unfoldable pub form_url_encode : Text → Text
unfolding encode_bytes utf8
form_url_encode [] = []
form_url_encode (c ∷ t) = encode_bytes (utf8 c) ++ form_url_encode t

text_in : Option Value → Option Text
unfolding as_str
text_in none = none
text_in (some v) = as_str v

text_or_empty : Option Text → Text
text_or_empty none = []
text_or_empty (some t) = t

named : Option Text → Text → List Text
unfolding form_url_encode
named none value = []
named (some name) value = (name ++ codes "=" ++ form_url_encode value) ∷ []

-- A parameter that is no object or has no name gives nothing.
pair_of : Value → List Text
unfolding named text_in text_or_empty get_field
pair_of (object fs) =
    named (text_in (get_field (codes "name") fs))
      (text_or_empty (text_in (get_field (codes "value") fs)))
pair_of _ = []

pairs_of : Items → List Text
unfolding pair_of
pairs_of no_items = []
pairs_of (item v vs) = pair_of v ++ pairs_of vs

put_body : Option Value → Fields → Fields
unfolding insert_field pairs_of join
put_body (some (array params)) post =
    insert_field (codes "text") (string (join (codes "&") (pairs_of params))) post
put_body _ post = post

form_text : Fields → Fields
unfolding put_body has_field get_field
form_text post =
    if has_field (codes "text") post then post else put_body (get_field (codes "params") post) post

put_text : Text → Option Text → Fields → Fields
unfolding or_insert
put_text k none post = post
put_text k (some t) post = or_insert k (string t) post

fill_post : Option Text → Option Text → Value → Value
unfolding form_text put_text
fill_post body mime_type (object post) =
    object (form_text (put_text (codes "mimeType") mime_type (put_text (codes "text") body post)))
fill_post body mime_type v = v

is_params : Option Value → Bool
is_params (some (array items)) = true
is_params _ = false

has_params : Option Value → Bool
unfolding is_params get_field
has_params (some (object post)) = is_params (get_field (codes "params") post)
has_params _ = false

has_body : Option Text → Option Text → Option Value → Bool
unfolding has_params
has_body body mime_type post = is_some body || is_some mime_type || has_params post

set_post : Option Text → Option Text → Fields → Fields
unfolding has_body get_field alter_field fill_post or_insert
set_post body mime_type request =
    if has_body body mime_type (get_field (codes "postData") request)
    then alter_field (codes "postData") (fill_post body mime_type)
        (or_insert (codes "postData") (object no_fields) request)
    else request

post_step : Fields → Fields
unfolding set_post text_in get_field
post_step request =
    set_post (text_in (get_field (codes "data") request))
      (text_in (get_field (codes "mimeType") request)) request

check_item : Value → Value
unfolding or_insert
check_item (object fs) = object (or_insert (codes "checked") (bool true) fs)
check_item v = v

unfoldable pub map_items : (Value → Value) → Items → Items
map_items f no_items = no_items
map_items f (item v vs) = item (f v) (map_items f vs)

check_items : Value → Value
unfolding map_items check_item
check_items (array items) = array (map_items check_item items)
check_items v = v

pub normalize_request : Value → Value
unfolding post_step alter_field check_items
normalize_request (object request) = object (
    post_step (
      alter_field (codes "cookies") check_items
        (alter_field (codes "headers") check_items request)))
normalize_request v = v

pub hoist_value : Option Value → Text → Fields → Fields
unfolding or_insert
hoist_value none key entry = entry
hoist_value (some v) key entry = or_insert key v entry

hoist_key : Fields → Text → Fields → Fields
unfolding hoist_value get_field
hoist_key rule key entry = hoist_value (get_field key rule) key entry

pub hoist_rule : Fields → Fields → Fields
unfolding hoist_key
hoist_rule rule entry =
    hoist_key rule (codes "extract_variables")
      (hoist_key rule (codes "failed_asserts") (hoist_key rule (codes "success_asserts") entry))

-- The members of an object; of any other value none.
pub members : Option Value → Fields
members (some (object fs)) = fs
members _ = no_fields

unfoldable pub normalize_fields : Fields → Fields
unfolding or_insert alter_field normalize_request hoist_rule members get_field remove_field
normalize_fields entry =
    let enabled = or_insert (codes "checked") (bool true) entry in
    alter_field (codes "request") normalize_request (
      hoist_rule (members (get_field (codes "rule") enabled)) (remove_field (codes "rule") enabled))

normalize_entry : Value → Value
unfolding normalize_fields
normalize_entry (object entry) = object (normalize_fields entry)
normalize_entry v = v

wrapped : Items → Value
wrapped entries = object (
    field (codes "log")
      (object (
        field (codes "creator")
          (object (
            field (codes "name") (string (codes "qdrust"))
              (field (codes "version") (string (codes "1.0")) no_fields)))
          (field (codes "entries") (array entries)
            (field (codes "version") (string (codes "1.2")) no_fields))))
      no_fields)

entries_of : Value → Option Items
unfolding get_field
entries_of (array items) = some items
entries_of (object o) = elim (get_field (codes "log") o) [
  | some (object log) ↦ elim (get_field (codes "entries") log) [
    | some (array items) ↦ some items
    | _ ↦ none
  ]
  | _ ↦ none
]
entries_of _ = none

normalize_with : Option Items → Value → Value
unfolding wrapped map_items normalize_entry
normalize_with none raw = raw
normalize_with (some entries) raw = wrapped (map_items normalize_entry entries)

unfoldable pub normalize_qd_document : Value → Value
unfolding normalize_with entries_of
normalize_qd_document raw = normalize_with (entries_of raw) raw
