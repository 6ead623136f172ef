-- ===== src/Executor/Response.antt =====
-- `finish_response` of executor.rs.
use qdrust.Base.{
  ℕ, ◌==◌, leb, Text, codes, is_empty, is_blank, contains, Bool, true, false, ◌&&◌, ◌||◌, Option,
  none, some, List, [], ◌∷◌, ◌++◌, length, Result, ok, err, ensure, if◌then◌else◌,
}
use qdrust.Base.Dict.{insert}
use qdrust.Base.Decimal.{to_string}
use qdrust.Json.{Value, string}
use qdrust.Har.{Entry, ExtractRule}
use qdrust.Executor.{
  Outside, Context, StepResult, ExecError, body_limit_exceeded, empty_app_conf, at_response,
}
use qdrust.Executor.Exec.{Exec, pure, lift, gets, change_context, with_context, ◌>>=◌, ◌>>◌}
use qdrust.Executor.Labels.{bounded_preview}
use qdrust.Executor.Rules.{rule_source, is_image_response, render_value, check_rules}

-- A pattern that the engine refuses becomes the value of the variable.
unfoldable pub extracted_value : Result Text (Option Value) → Option Value
extracted_value (ok v) = v
extracted_value (err m) = some (string m)

unfoldable pub set_variable : Text → Value → Context → Context
set_variable name v c = record c { variables = insert name v c.variables }

unfoldable pub response_preview : Bool → ℕ → List ℕ → Text → Text
response_preview body_is_stored_value status body content =
    if body_is_stored_value && status == 200
    then codes "<" ++ to_string (length body) ++ codes " bytes of notepad content omitted>"
    else bounded_preview content

unfoldable pub is_empty_app_conf : Text → Text → Bool
is_empty_app_conf url content =
    contains (codes "/oauth2/appConf.do") url
    && contains (0x22 ∷ codes "data" ++ 0x22 ∷ codes ":{}") content

module _ {W : Type 0} (o : Outside W) where
  unfoldable pub store : Text → Option Value → Exec W (Unit {0})
  unfolding set_variable
  store name none = pure tt
  store name (some v) = change_context (set_variable name v)

  -- One rule of `extract_variables`.
  unfoldable pub extract_rule : ℕ → List (Text × Text) → Text → ExtractRule → Exec W (Unit {0})
  unfolding store extracted_value render_value
  extract_rule status headers content rule =
      if is_empty rule.rule.re || is_blank rule.name then pure tt else do
        variables ← gets (λ s. s.context.variables)
        pattern ← lift (render_value o rule.rule.re variables)
        store rule.name (
            extracted_value
              (o.extract pattern (rule_source rule.rule.source status headers content)))

  unfoldable pub extract_rules :
      ℕ → List (Text × Text) → Text → List ExtractRule → Exec W (Unit {0})
  unfolding extract_rule
  extract_rules status headers content [] = pure tt
  extract_rules status headers content (rule ∷ rules) = do
    extract_rule status headers content rule
    extract_rules status headers content rules

  unfoldable pub record_response : ℕ → List (Text × Text) → Text → Context → Context
  record_response status headers content c = record c {
    last_status = some status;
    last_headers = headers;
    last_body = content;
  }

  unfoldable pub content_of : List ℕ → List (Text × Text) → Text
  content_of body headers =
      if is_image_response headers then o.base64 body else o.decode_body body headers

  -- The two assertion lists, the extractions and the last test, over the decoded content.
  unfoldable pub judge_response :
      Entry → Text → (ExecError → ExecError) → ℕ → List (Text × Text) → Text → Exec W (Unit {0})
  unfolding check_rules extract_rules
  judge_response entry url quoted status headers content = do
    variables ← gets (λ s. s.context.variables)
    with_context quoted
        (lift (check_rules o status headers content variables true entry.success_asserts))
    with_context quoted
        (lift (check_rules o status headers content variables false entry.failed_asserts))
    extract_rules status headers content entry.extract_variables
    lift (ensure (if is_empty_app_conf url content then false else true) empty_app_conf)

  unfoldable pub finish_response :
      ℕ → Entry → Text → Text → ℕ → List (Text × Text) → List ℕ → Bool → Exec W StepResult
  unfolding record_response content_of judge_response
  finish_response limit entry url digest status headers body body_is_stored_value = do
    lift (ensure (leb (length body) limit) body_limit_exceeded)
    change_context (record_response status headers (content_of body headers))
    judge_response entry url
        (at_response url digest
          (response_preview body_is_stored_value status body (content_of body headers)))
        status headers (content_of body headers)
    pure (record { url = url; status = status; body_size = length body })
