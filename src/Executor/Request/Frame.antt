-- ===== src/Executor/Request/Frame.antt =====
-- What a request leaves alone once it is counted: executor.rs.
use qdrust.Base.{
  ℕ, Text, Bool, true, false, Option, none, some, List, [], ◌∷◌, Result, ◌≡◌, refl, ◌∙◌,
}
use qdrust.Json.{Value}
use qdrust.Har.{Entry, ExtractRule}
use qdrust.Executor.{Outside, Machine, ExecError}
use qdrust.Executor.Exec.{outside, change, change_context}
use qdrust.Executor.Guarantee.{
  IsLawful, Guarantee, guarantee_rules, Guarantee-bind, Guarantee-change, Guarantee-change_context,
}
use qdrust.Executor.Response.{
  store, extract_rule, extract_rules, judge_response, finish_response, record_response,
  set_variable,
}
use qdrust.Executor.Request.{
  variables_now, remember_cookie, attach_cookies, inherit_cookies, call_api, prepare, send_http,
  dispatch_request, add_cookies,
}

-- The counters, the limit, the results and the events.
pub record Frame {W : Type 0} (s : Machine W) (b : Bool) (t : Machine W) : Type 0 where
  pub remaining : t.context.remaining_requests ≡ s.context.remaining_requests
  pub limit : t.context.loop_limit ≡ s.context.loop_limit
  pub index : t.next_step_index ≡ s.next_step_index
  pub results : t.results ≡ s.results
  pub events : t.events ≡ s.events

Frame-IsLawful : {W : Type 0} → IsLawful (Frame {W = W})
Frame-IsLawful = record {
  same =
      λ s b. record { remaining = refl; limit = refl; index = refl; results = refl; events = refl };
  then_after = λ s t u b p q. record {
    remaining = q.remaining ∙ p.remaining;
    limit = q.limit ∙ p.limit;
    index = q.index ∙ p.index;
    results = q.results ∙ p.results;
    events = q.events ∙ p.events;
  };
}

module _ {W A : Type 0} where
  Frame-outside : (f : W → Result Text A × W) → Guarantee Frame (outside {W = W} f)
  unfolding outside
  Frame-outside f = record {
    at =
        λ s. record { remaining = refl; limit = refl; index = refl; results = refl; events = refl };
  }

module _ {W : Type 0} where
  Frame-set_variable :
      (name : Text) (v : Value) → Guarantee {W = W} Frame (change_context (set_variable name v))
  unfolding set_variable
  Frame-set_variable name v =
      Guarantee-change_context _
        λ s. record { remaining = refl; limit = refl; index = refl; results = refl; events = refl }

ruleset frame_rules = (guarantee_rules, Frame-IsLawful, Frame-outside, Frame-set_variable)

module _ {W : Type 0} (o : Outside W) where
  Frame-store : (name : Text) (v : Option Value) → Guarantee Frame (store o name v)
  unfolding store
  Frame-store name none = search frame_rules
  Frame-store name (some v) = search frame_rules

  Frame-extract_rule :
      (status : ℕ) (headers : List (Text × Text)) (content : Text) (rule : ExtractRule)
      → Guarantee Frame (extract_rule o status headers content rule)
  unfolding extract_rule
  Frame-extract_rule status headers content rule = search (frame_rules, Frame-store) depth 8

  Frame-extract_rules :
      (status : ℕ) (headers : List (Text × Text)) (content : Text) (rules : List ExtractRule)
      → Guarantee Frame (extract_rules o status headers content rules)
  unfolding extract_rules
  Frame-extract_rules status headers content [] = search frame_rules
  Frame-extract_rules status headers content (rule ∷ rules) =
      Guarantee-bind Frame-IsLawful _ _ (Frame-extract_rule status headers content rule)
        (λ _. Frame-extract_rules status headers content rules)

  Frame-judge_response :
      (entry : Entry) (url : Text) (quoted : ExecError → ExecError) (status : ℕ)
      (headers : List (Text × Text)) (content : Text)
      → Guarantee Frame (judge_response o entry url quoted status headers content)
  unfolding judge_response
  Frame-judge_response entry url quoted status headers content =
      search (frame_rules, Frame-extract_rules) depth 12

  Frame-record_response :
      (status : ℕ) (headers : List (Text × Text)) (content : Text)
      → Guarantee {W = W} Frame (change_context (record_response o status headers content))
  unfolding record_response
  Frame-record_response status headers content =
      Guarantee-change_context _
        λ s. record { remaining = refl; limit = refl; index = refl; results = refl; events = refl }

  Frame-finish_response :
      (limit : ℕ) (entry : Entry) (url digest : Text) (status : ℕ) (headers : List (Text × Text))
      (body : List ℕ) (stored : Bool)
      → Guarantee Frame (finish_response o limit entry url digest status headers body stored)
  unfolding finish_response
  Frame-finish_response limit entry url digest status headers body stored =
      search (frame_rules, Frame-judge_response, Frame-record_response) depth 12

  Frame-variables_now : (limit : ℕ) → Guarantee Frame (variables_now o limit)
  unfolding variables_now
  Frame-variables_now limit = search frame_rules

  Frame-remember_cookie :
      (limit : ℕ) (t : Option Text) → Guarantee Frame (remember_cookie o limit t)
  unfolding remember_cookie
  Frame-remember_cookie limit none = search frame_rules
  Frame-remember_cookie limit (some t) = search frame_rules

  Frame-world :
      (limit : ℕ) (url : Text) (cookies : List Text)
      → Guarantee {W = W} Frame
          (change (λ s. record s { world = add_cookies o limit url cookies s.world }))
  Frame-world limit url cookies =
      Guarantee-change _
        λ s. record { remaining = refl; limit = refl; index = refl; results = refl; events = refl }

  Frame-attach_cookies :
      (limit : ℕ) (url : Text) (cookies : List Text)
      → Guarantee Frame (attach_cookies o limit url cookies)
  unfolding attach_cookies
  Frame-attach_cookies limit url [] = search frame_rules
  Frame-attach_cookies limit url (cookie ∷ cookies) = search (frame_rules, Frame-world) depth 8

  Frame-inherit_cookies :
      (limit : ℕ) (url : Text) (explicit : Bool)
      → Guarantee Frame (inherit_cookies o limit url explicit)
  unfolding inherit_cookies
  Frame-inherit_cookies limit url true = search frame_rules
  Frame-inherit_cookies limit url false = search (frame_rules, Frame-variables_now) depth 8

  Frame-prepare :
      (limit : ℕ) (entry : Entry) (method url : Text)
      → Guarantee Frame (prepare o limit entry method url)
  Frame-prepare limit entry method url =
      unfold prepare in
      search
        (
          frame_rules, Frame-variables_now, Frame-remember_cookie, Frame-attach_cookies,
          Frame-inherit_cookies,
        )
        depth 16

  Frame-call_api :
      (limit : ℕ) (entry : Entry) (method url : Text)
      → Guarantee Frame (call_api o limit entry method url)
  Frame-call_api limit entry method url =
      unfold call_api in search (frame_rules, Frame-variables_now, Frame-finish_response) depth 12

  Frame-send_http :
      (limit : ℕ) (entry : Entry) (method url : Text)
      → Guarantee Frame (send_http o limit entry method url)
  Frame-send_http limit entry method url =
      unfold send_http in
      search (frame_rules, Frame-variables_now, Frame-finish_response, Frame-prepare) depth 12

  -- Once it is counted, a request changes neither the counters nor the results nor the events.
  pub Frame-dispatch_request :
      (limit : ℕ) (entry : Entry) → Guarantee Frame (dispatch_request o limit entry)
  Frame-dispatch_request limit entry =
      unfold dispatch_request in
      search (frame_rules, Frame-variables_now, Frame-call_api, Frame-send_http) depth 12
