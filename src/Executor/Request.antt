-- ===== src/Executor/Request.antt =====
-- `execute_request` and `execute_request_inner` of executor.rs. The debug output is left out.
pub mod Parts
pub mod Frame
use qdrust.Base.{
  ℕ, suc, ◌-◌, ltb, Text, codes, is_empty, starts_with, join, Bool, true, false, Option, none, some,
  List, [], ◌∷◌, ◌++◌, Result, ok, err, ensure, if◌then◌else◌,
}
use qdrust.Base.Dict.{Dict, lookup}
use qdrust.Json.{Value, string, as_str}
use qdrust.Har.{Entry}
use qdrust.Executor.{
  Outside, Context, Machine, StepResult, Event, Phase, started, finished, ExecError, HttpRequest,
  HttpResponse, request_limit_exceeded, invalid_method, invalid_url,
}
use qdrust.Executor.Exec.{Exec, pure, lift, gets, change, change_context, outside, ◌>>=◌, ◌>>◌}
use qdrust.Executor.Labels.{request_digest}
use qdrust.Executor.Rules.{render_value}
use qdrust.Executor.Response.{finish_response, set_variable}
use Parts.{
  Draft, Sent, api_call_url, proxy_of, render_headers, render_cookies, checked, request_body,
}

abbrev cookie_variable : Text
cookie_variable = codes "__qdrust_cookie_header"

-- What a request takes from the run before it is rendered.
unfoldable pub spend : Context → Context
spend c = record c { remaining_requests = c.remaining_requests - 1; last_status = none }

cookie_lines : Option Text → List (Text × Text)
cookie_lines none = []
cookie_lines (some t) = (codes "cookie", t) ∷ []

text_value : Option Value → Option Text
unfolding as_str
text_value none = none
text_value (some v) = as_str v

module _ {W : Type 0} (o : Outside W) (response_limit : ℕ) where
  unfoldable pub variables_now : Exec W (Dict Value)
  unfolding gets
  variables_now = gets (λ s. s.context.variables)

  unfoldable pub remember_cookie : Option Text → Exec W (Unit {0})
  unfolding set_variable
  remember_cookie none = pure tt
  remember_cookie (some t) = change_context (set_variable cookie_variable (string t))

  unfoldable pub add_cookies : Text → List Text → W → W
  add_cookies url [] w = w
  add_cookies url (cookie ∷ cookies) w =
      add_cookies url cookies (o.add_cookie (cookie ++ codes "; Path=/") url w)

  -- The cookies of the entry, as a header, as a variable and in the jar.
  unfoldable pub attach_cookies : Text → List Text → Exec W (List (Text × Text))
  attach_cookies url [] = pure []
  attach_cookies url (cookie ∷ cookies) = do
    change_context (set_variable cookie_variable (string (join (codes "; ") (cookie ∷ cookies))))
    lift (ensure (o.is_url url) invalid_url)
    change (λ s. record s { world = add_cookies url (cookie ∷ cookies) s.world })
    pure ((codes "cookie", join (codes "; ") (cookie ∷ cookies)) ∷ [])

  -- Without a `Cookie` header in the entry: the remembered one, and that of the jar.
  unfoldable pub inherit_cookies : Text → Bool → Exec W (List (Text × Text))
  unfolding cookie_lines text_value
  inherit_cookies url true = pure []
  inherit_cookies url false = do
    variables ← variables_now
    lift (ensure (o.is_url url) invalid_url)
    world ← gets (λ s. s.world)
    pure (
        cookie_lines (text_value (lookup cookie_variable variables))
        ++ cookie_lines (o.jar_cookies url world))

  unfoldable pub call_api : Entry → Text → Text → Exec W StepResult
  unfolding variables_now finish_response
  call_api entry method url = do
    variables ← variables_now
    call_url ← lift (api_call_url o variables method url entry.request.post_data)
    response ← outside (o.call_plugin call_url)
    finish_response o response_limit entry url (request_digest method none) response.status
        response.headers response.body (o.is_stored_value call_url)

  unfoldable pub prepare : Entry → Text → Text → Exec W (HttpRequest × Option Text)
  unfolding variables_now remember_cookie attach_cookies inherit_cookies
  prepare entry method url = do
    variables ← variables_now
    draft ← lift (
        render_headers o variables
          (record { headers = []; explicit_cookie = false; cookie_header = none })
          (checked entry.request.headers))
    remember_cookie draft.cookie_header
    variables' ← variables_now
    cookies ← lift (render_cookies o variables' (checked entry.request.cookies))
    own ← attach_cookies url cookies
    inherited ← inherit_cookies url draft.explicit_cookie
    variables'' ← variables_now
    sent ← lift (request_body o variables'' entry.request.headers entry.request.post_data)
    pure (
      record {
        method = method;
        url = url;
        headers = draft.headers ++ own ++ inherited ++ sent.headers;
        body = sent.body;
      },
      sent.rendered_body,
    )

  unfoldable pub send_http : Entry → Text → Text → Exec W StepResult
  unfolding variables_now prepare finish_response
  send_http entry method url = do
    variables ← variables_now
    outside (o.client_for_url url (proxy_of variables))
    lift (ensure (o.is_method method) invalid_method)
    prepared ← prepare entry method url
    response ← outside (o.send prepared.0)
    finish_response o response_limit entry url (request_digest method prepared.1) response.status
        response.headers response.body false

  unfoldable pub dispatch_request : Entry → Exec W StepResult
  unfolding variables_now call_api send_http render_value
  dispatch_request entry = do
    variables ← variables_now
    method ← lift (render_value o entry.request.method variables)
    url ← lift (render_value o entry.request.url variables)
    if starts_with (codes "api://") url
        then call_api entry method url
        else send_http entry method url

  unfoldable pub execute_request_inner : Entry → Exec W StepResult
  unfolding spend dispatch_request
  execute_request_inner entry = do
    remaining ← gets (λ s. s.context.remaining_requests)
    lift (ensure (ltb 0 remaining) request_limit_exceeded)
    change_context spend
    dispatch_request entry

  unfoldable pub emit : Event → Machine W → Machine W
  emit event s = record s { events = s.events ++ event ∷ [] }

  unfoldable pub or_raw : Text → Result Text Text → Text
  or_raw t (ok r) = r
  or_raw t (err m) = t

  unfoldable pub started_event : ℕ → Text → Text → Event
  started_event index method url = record {
    step_index = index;
    method = method;
    url = url;
    phase = started;
    status = none;
    body_size = 0;
    error = none;
  }

  unfoldable pub finished_event : ℕ → Text → Text → Option ℕ → Result ExecError StepResult → Event
  finished_event index method url last_status (ok r) = record {
    step_index = index;
    method = method;
    url = r.url;
    phase = finished;
    status = some r.status;
    body_size = r.body_size;
    error = none;
  }
  finished_event index method url last_status (err e) = record {
    step_index = index;
    method = method;
    url = url;
    phase = finished;
    status = last_status;
    body_size = 0;
    error = some e;
  }

  -- The second event, and the result as it was.
  unfoldable pub report :
      ℕ
      → Text
      → Text
      → Result ExecError StepResult × Machine W
      → Result ExecError StepResult × Machine W
  unfolding emit finished_event
  report index method url (r, s) =
      (r, emit (finished_event index method url s.context.last_status r) s)

  unfoldable pub begin : ℕ → Text → Text → Machine W → Machine W
  unfolding emit started_event
  begin index method url s =
      emit (started_event index method url) (record s { next_step_index = suc s.next_step_index })

  unfoldable pub execute_request : Entry → Exec W StepResult
  unfolding execute_request_inner report begin or_raw
  execute_request entry s =
      let index = s.next_step_index in
      let method = entry.request.method in
      let url = or_raw entry.request.url (o.render entry.request.url s.context.variables) in
      report index method url (execute_request_inner entry (begin index method url s))
