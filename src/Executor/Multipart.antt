-- ===== src/Executor/Multipart.antt =====
-- `build_multipart` of executor.rs.
use qdrust.Base.{
  Text, codes, is_empty, Option, none, some, or_else, List, [], ◌∷◌, Result, ok, ◌>>=◌,
  if◌then◌else◌,
}
use qdrust.Base.Dict.{Dict}
use qdrust.Json.{Value, array, object, get_field, as_str, item_list}
use qdrust.Har.{PostData}
use qdrust.Executor.{Outside, ExecError, Part, text_part, bytes_part, file_part}
use qdrust.Executor.Rules.{render_value}

text_of : Option Value → Option Text
unfolding as_str
text_of none = none
text_of (some v) = as_str v

-- `param.get(key).and_then(Value::as_str)`
unfoldable pub param_text : Value → Text → Option Text
unfolding text_of
param_text (object fs) key = text_of (get_field key fs)
param_text _ key = none

unfoldable pub param_list : Option Value → List Value
param_list (some (array vs)) = item_list vs
param_list _ = []

module _ {W : Type 0} (o : Outside W) (variables : Dict Value) where
  mime_of : Option Text → Option Text
  mime_of none = none
  mime_of (some m) = if o.is_mime m then some m else none

  unfoldable pub build_part : Value → Result ExecError Part
  unfolding param_text mime_of
  build_part param = do
    name ← render_value o (or_else (param_text param (codes "name")) []) variables
    if is_empty (or_else (param_text param (codes "fileName")) [])
        then (do
          value ← render_value o (or_else (param_text param (codes "value")) []) variables
          ok (text_part name value))
        else (do
          file_name ← render_value o (or_else (param_text param (codes "fileName")) []) variables
          content ← render_value o (or_else (param_text param (codes "value")) []) variables
          ok (file_part name file_name content (mime_of (param_text param (codes "contentType")))))

  unfoldable pub build_parts : List Value → Result ExecError (List Part)
  unfolding build_part
  build_parts [] = ok []
  build_parts (param ∷ params) = do
    part ← build_part param
    parts ← build_parts params
    ok (part ∷ parts)

  build_from : PostData → Option Text → Result ExecError (List Part)
  unfolding build_parts param_list
  build_from post_data (some text) = do
    body ← render_value o text variables
    ok (bytes_part (codes "body") body ∷ [])
  build_from post_data none =
      build_parts (param_list (get_field (codes "params") post_data.extensions))

  unfoldable pub build_multipart : PostData → Result ExecError (List Part)
  unfolding build_from
  build_multipart post_data = build_from post_data post_data.text
