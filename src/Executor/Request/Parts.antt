-- ===== src/Executor/Request/Parts.antt =====
-- The parts of `execute_request_inner` of executor.rs that change nothing: the URL of a plugin
-- call, the headers, the cookies and the body.
use qdrust.Base.{
  Text, codes, is_empty, trim, starts_with, contains, eq_ignore_ascii_case, to_ascii_lowercase,
  Bool, true, not, ◌&&◌, ◌||◌, any, Option, none, some, or_else, List, [], ◌∷◌, ◌++◌, keep_if,
  Result, ok, ◌>>=◌, if◌then◌else◌,
}
use qdrust.Base.Dict.{Dict, lookup}
use qdrust.Json.{Value, as_str}
use qdrust.Har.{NameValue, PostData}
use qdrust.Executor.{Outside, ExecError, Body, no_body, raw, multipart}
use qdrust.Executor.Forms.{merge_form_into_query, encode_form_body}
use qdrust.Executor.Rules.{render_value}
use qdrust.Executor.Multipart.{build_multipart}

unfoldable pub checked : List NameValue → List NameValue
checked = keep_if (λ h. h.checked)

-- The headers so far, and what the `Cookie` header of the entry says.
pub record Draft : Type 0 where
  pub headers : List (Text × Text)
  pub explicit_cookie : Bool
  pub cookie_header : Option Text

-- The body, the headers that it adds, and the text that a failure quotes.
pub record Sent : Type 0 where
  pub headers : List (Text × Text)
  pub body : Body
  pub rendered_body : Option Text

trimmed : Option Text → Text
trimmed none = []
trimmed (some t) = trim t

proxy_text : Option Value → Option Text
unfolding as_str
proxy_text none = none
proxy_text (some v) = as_str v

-- `policy_with_proxy`
unfoldable pub proxy_of : Dict Value → Option Text
unfolding trimmed proxy_text
proxy_of variables =
    let proxy = trimmed (proxy_text (lookup (codes "_proxy") variables)) in
    if is_empty proxy then none else some proxy

abbrev form_mime : Text
form_mime = codes "application/x-www-form-urlencoded"

module _ {W : Type 0} (o : Outside W) (variables : Dict Value) where
  merge_body : Text → Option Text → Result ExecError Text
  unfolding merge_form_into_query
  merge_body url none = ok url
  merge_body url (some text) = do
    body ← render_value o text variables
    ok (merge_form_into_query o url body)

  unfoldable pub api_call_url : Text → Text → Option PostData → Result ExecError Text
  unfolding merge_body
  api_call_url method url none = ok url
  api_call_url method url (some post_data) =
      let mime = or_else post_data.mime_type [] in
      if eq_ignore_ascii_case method (codes "POST") && (is_empty mime || contains form_mime mime)
      then merge_body url post_data.text
      else ok url

  add_value : Draft → Text → Text → Draft
  add_value d name value =
      if eq_ignore_ascii_case name (codes "accept-encoding")
      then record d { headers = d.headers ++ (codes "accept-encoding", codes "identity") ∷ [] }
      else if eq_ignore_ascii_case name (codes "cookie")
      then record {
        headers = d.headers ++ (name, value) ∷ [];
        explicit_cookie = true;
        cookie_header = some value;
      }
      else record d { headers = d.headers ++ (name, value) ∷ [] }

  unfoldable pub add_header : Draft → NameValue → Result ExecError Draft
  unfolding add_value
  add_header d header = do
    name ← render_value o header.name variables
    if starts_with (codes ":") name
        then ok d
        else do value ← render_value o header.value variables; ok (add_value d name value)

  unfoldable pub render_headers : Draft → List NameValue → Result ExecError Draft
  unfolding add_header
  render_headers d [] = ok d
  render_headers d (header ∷ headers) = do d' ← add_header d header; render_headers d' headers

  unfoldable pub render_cookies : List NameValue → Result ExecError (List Text)
  render_cookies [] = ok []
  render_cookies (cookie ∷ cookies) = do
    name ← render_value o cookie.name variables
    value ← render_value o cookie.value variables
    rest ← render_cookies cookies
    ok ((name ++ codes "=" ++ value) ∷ rest)

  body_text : Text → Option Text → Result ExecError (Body × Option Text)
  unfolding encode_form_body
  body_text mime none = ok (no_body, none)
  body_text mime (some text) = do
    rendered ← render_value o text variables
    let body =
        if contains form_mime (to_ascii_lowercase mime)
        then encode_form_body o rendered
        else rendered
    ok (raw body, some body)

  post_body : PostData → Text → Result ExecError (Body × Option Text)
  unfolding body_text build_multipart
  post_body post_data mime =
      if starts_with (codes "multipart/") mime
      then (do parts ← build_multipart o variables post_data; ok (multipart parts, none))
      else body_text mime post_data.text

  unfoldable pub request_body : List NameValue → Option PostData → Result ExecError Sent
  unfolding post_body checked
  request_body headers none = ok (record { headers = []; body = no_body; rendered_body = none })
  request_body headers (some post_data) = do
    let mime = or_else post_data.mime_type []
    let has_content_type =
        any (λ h. eq_ignore_ascii_case h.name (codes "content-type")) (checked headers)
    built ← post_body post_data mime
    ok (record {
      headers =
          if not (is_empty mime) && not has_content_type
          then (codes "content-type", mime) ∷ []
          else [];
      body = built.0;
      rendered_body = built.1;
    })
