-- ===== src/Executor/Native/Parts.antt =====
-- `native_request_entry`, `step_label` and the extraction of a native step of executor.rs.
use qdrust.Base.{
  ℕ, Text, codes, join, true, Option, none, some, List, [], ◌∷◌, ◌++◌, map, Result, ok, err, ensure,
  map_err, ◌>>=◌, ◌>>◌,
}
use qdrust.Base.Decimal.{to_string}
use qdrust.Base.Dict.{Dict}
use qdrust.Json.{Value, string, number, unsigned, no_fields}
use qdrust.Har.{Entry, NameValue, PostData}
use qdrust.Template.{
  RequestStep, RequestBody, json, text, form, ExtractSource, from_json, from_text, from_header,
  from_status, Step, request_step, extract_step, if_step, for_each, delay,
}
use qdrust.Executor.{
  Outside, Context, ExecError, message, cannot_render_url, invalid_url, invalid_json,
}
use qdrust.Executor.Labels.{bounded_label, request_label, step_text}
use qdrust.Executor.Rules.{header_value}

step_detail : Step → Text
unfolding request_label bounded_label
step_detail (request_step r) = request_label r.name r.method r.url
step_detail (extract_step x) = codes "extract " ++ bounded_label x.name
step_detail (if_step condition ts fs) = codes "if " ++ bounded_label condition
step_detail (for_each name source body) =
    codes "for " ++ name ++ codes " in " ++ bounded_label source
step_detail (delay milliseconds) = codes "delay " ++ to_string milliseconds ++ codes "ms"

unfoldable pub step_label : ℕ → Step → Text
unfolding step_detail step_text
step_label index s = step_text index (step_detail s)

enabled_header : Text × Text → NameValue
enabled_header (name, value) = record {
  name = name;
  value = value;
  checked = true;
  extensions = no_fields;
}

form_pair : Text × Text → Text
form_pair (name, value) = name ++ codes "=" ++ value

optional_value : Option ℕ → Option Value
optional_value none = none
optional_value (some n) = some (number (unsigned n))

optional_text : Option Text → Option Value
optional_text none = none
optional_text (some t) = some (string t)

invalid_unless_json : Option Value → Result ExecError Value
invalid_unless_json none = err invalid_json
invalid_unless_json (some v) = ok v

module _ {W : Type 0} (o : Outside W) where
  unfoldable pub native_body : RequestBody → PostData
  unfolding form_pair
  native_body (json v) = record {
    mime_type = some (codes "application/json");
    text = some (o.print_json v);
    extensions = no_fields;
  }
  native_body (text t) = record {
    mime_type = some (codes "text/plain");
    text = some t;
    extensions = no_fields;
  }
  native_body (form pairs) = record {
    mime_type = some (codes "application/x-www-form-urlencoded");
    text = some (join (codes "&") (map form_pair pairs));
    extensions = no_fields;
  }

  optional_body : Option RequestBody → Option PostData
  unfolding native_body
  optional_body none = none
  optional_body (some b) = some (native_body b)

  unfoldable pub render_query :
      Dict Value → List (Text × Text) → Result ExecError (List (Text × Text))
  render_query variables [] = ok []
  render_query variables ((name, value) ∷ pairs) = do
    n ← map_err message (o.render name variables)
    v ← map_err message (o.render value variables)
    rest ← render_query variables pairs
    ok ((n, v) ∷ rest)

  unfoldable pub native_request_entry : RequestStep → Dict Value → Result ExecError Entry
  unfolding render_query optional_body enabled_header
  native_request_entry r variables = do
    url ← map_err cannot_render_url (o.render r.url variables)
    ensure (o.is_url url) invalid_url
    pairs ← render_query variables r.query
    ok (record {
      checked = true;
      comment = some r.name;
      request = record {
        method = r.method;
        url = o.append_query url pairs;
        headers = map enabled_header r.headers;
        cookies = [];
        post_data = optional_body r.body;
        extensions = no_fields;
      };
      success_asserts = [];
      failed_asserts = [];
      extract_variables = [];
      extensions = no_fields;
    })

  unfoldable pub extracted : ExtractSource → Text → Context → Result ExecError (Option Value)
  unfolding optional_value optional_text invalid_unless_json
  extracted from_status selector c = ok (optional_value c.last_status)
  extracted from_header selector c = ok (optional_text (header_value c.last_headers selector))
  extracted from_text selector c = map_err message (o.extract selector c.last_body)
  extracted from_json selector c = do
    value ← invalid_unless_json (o.parse_json c.last_body)
    ok (o.pointer selector value)
