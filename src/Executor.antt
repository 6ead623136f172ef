-- ===== src/Executor.antt =====
-- crates/qdrust-core/src/executor.rs: the state of a run, and what it takes from outside.
pub mod Exec
pub mod Labels
pub mod Forms
pub mod Rules
pub mod Response
pub mod Multipart
pub mod Request
pub mod Guarantee
pub mod Loops
pub mod Blocks
pub mod Progress
pub mod Native
pub mod Promises
use qdrust.Base.{ℕ, Text, Bool, Option, List, Result}
use qdrust.Base.Dict.{Dict}
use qdrust.Json.{Value}
use qdrust.Har.{Entry}
use qdrust.Template.{TemplateError}

pub record Context : Type 0 where
  pub variables : Dict Value
  pub remaining_requests : ℕ
  pub loop_limit : ℕ
  pub last_status : Option ℕ
  pub last_headers : List (Text × Text)
  pub last_body : Text

pub record StepResult : Type 0 where
  pub url : Text
  pub status : ℕ
  pub body_size : ℕ

-- An `anyhow` error: the message at its root, and the contexts around it.
pub data ExecError : Type 0 where
  message : Text → ExecError
  cannot_render : Text → ExecError
  cannot_render_url : Text → ExecError
  request_limit_exceeded : ExecError
  for_limit_exceeded : ExecError
  for_each_limit_exceeded : ExecError
  while_limit_exceeded : ExecError
  not_iterable : ExecError
  body_limit_exceeded : ExecError
  failed_assertion : Text → ExecError
  no_success_assertion : ExecError
  empty_app_conf : ExecError
  invalid_method : ExecError
  invalid_url : ExecError
  invalid_json : ExecError
  extraction_missing : Text → ExecError
  invalid_template : TemplateError → ExecError
  in_step : Text → ExecError → ExecError
  at_response : Text → Text → Text → ExecError → ExecError

pub data Phase : Type 0 where
  started finished : Phase

pub record Event : Type 0 where
  pub step_index : ℕ
  pub method : Text
  pub url : Text
  pub phase : Phase
  pub status : Option ℕ
  pub body_size : ℕ
  pub error : Option ExecError

pub data Part : Type 0 where
  text_part : Text → Text → Part
  bytes_part : Text → Text → Part
  file_part : Text → Text → Text → Option Text → Part

pub data Body : Type 0 where
  no_body : Body
  raw : Text → Body
  multipart : List Part → Body

-- What is handed to the HTTP client.
pub record HttpRequest : Type 0 where
  pub method : Text
  pub url : Text
  pub headers : List (Text × Text)
  pub body : Body

pub record HttpResponse : Type 0 where
  pub status : ℕ
  pub headers : List (Text × Text)
  pub body : List ℕ

-- What a run calls: the expression engine, the pattern engine, the text codecs, the plugins and
-- the guarded HTTP client. `W` is the state of all that lies outside, the cookie jar included.
pub record Outside (W : Type 0) : Type 0 where
  pub render : Text → Dict Value → Result Text Text
  pub evaluate : Text → Dict Value → Result Text Value
  pub evaluate_bool : Text → Dict Value → Result Text Bool
  pub is_match : Text → Text → Result Text Bool
  pub extract : Text → Text → Result Text (Option Value)
  pub parse_json : Text → Option Value
  pub pointer : Text → Value → Option Value
  pub base64 : List ℕ → Text
  pub decode_body : List ℕ → List (Text × Text) → Text
  pub percent_decode : Text → Text
  pub percent_encode_form : Text → Text
  pub percent_encode : Text → Text
  pub is_method : Text → Bool
  pub is_url : Text → Bool
  pub is_mime : Text → Bool
  pub append_query : Text → List (Text × Text) → Text
  pub print_json : Value → Text
  pub is_stored_value : Text → Bool
  pub client_for_url : Text → Option Text → W → Result Text (Unit {0}) × W
  pub add_cookie : Text → Text → W → W
  pub jar_cookies : Text → W → Option Text
  pub send : HttpRequest → W → Result Text HttpResponse × W
  pub call_plugin : Text → W → Result Text HttpResponse × W

-- The limits of `QdExecutor`.
pub record Limits : Type 0 where
  pub response_limit : ℕ
  pub request_limit : ℕ
  pub loop_limit : ℕ

-- All that a run changes: the context and the results that the caller lent, the step counter of
-- the executor, the events that the observer was called with, and the outside.
pub record Machine (W : Type 0) : Type 0 where
  pub context : Context
  pub results : List StepResult
  pub next_step_index : ℕ
  pub events : List Event
  pub world : W
