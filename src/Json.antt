-- ===== src/Json.antt =====
-- `serde_json::Value`. A number keeps the three forms that serde_json tells apart: an unsigned and
-- a negative 64-bit integer, and a float by its bit pattern. An object lists its members in the
-- order in which the map iterates, that of the keys.
pub mod Objects
use qdrust.Base.{ℕ, Text, text_eq, Bool, Option, none, some, List, [], ◌∷◌, if◌then◌else◌}

pub data Number : Type 0 where
  unsigned : ℕ → Number
  negative : ℕ → Number
  float : ℕ → Number

mutual
  pub data Value : Type 0 where
    null : Value
    bool : Bool → Value
    number : Number → Value
    string : Text → Value
    array : Items → Value
    object : Fields → Value

  pub data Items : Type 0 where
    no_items : Items
    item : Value → Items → Items

  pub data Fields : Type 0 where
    no_fields : Fields
    field : Text → Value → Fields → Fields

unfoldable pub item_list : Items → List Value
item_list no_items = []
item_list (item v vs) = v ∷ item_list vs

unfoldable pub field_names : Fields → List Text
field_names no_fields = []
field_names (field k v fs) = k ∷ field_names fs

unfoldable pub get_field : Text → Fields → Option Value
get_field k no_fields = none
get_field k (field j v fs) = if text_eq j k then some v else get_field k fs

-- `Value::as_str`
unfoldable pub as_str : Value → Option Text
as_str (string t) = some t
as_str _ = none
