-- ===== src/Tests/Outsides.antt =====
-- An outside of the executor that answers each request with status 200 and an empty body.
use qdrust.Base.{text_eq, codes, true, false, none, [], ok}
use qdrust.Json.{null}
use qdrust.Executor.{Outside, Limits, Machine, HttpResponse}

abbrev pub answer : HttpResponse
answer = record { status = 200; headers = []; body = [] }

abbrev pub simple : Outside (Unit {0})
simple = record {
  render = λ t _. ok t;
  evaluate = λ _ _. ok null;
  evaluate_bool = λ t _. ok (text_eq t (codes "ready"));
  is_match = λ p t. ok (text_eq p t);
  extract = λ _ t. ok none;
  parse_json = λ _. none;
  pointer = λ _ _. none;
  base64 = λ t. t;
  decode_body = λ t _. t;
  percent_decode = λ t. t;
  percent_encode_form = λ t. t;
  percent_encode = λ t. t;
  is_method = λ _. true;
  is_url = λ _. true;
  is_mime = λ _. true;
  append_query = λ url _. url;
  print_json = λ _. [];
  is_stored_value = λ _. false;
  client_for_url = λ _ _ w. (ok tt, w);
  add_cookie = λ _ _ w. w;
  jar_cookies = λ _ _. none;
  send = λ _ w. (ok answer, w);
  call_plugin = λ _ w. (ok answer, w);
}

abbrev pub limits : Limits
limits = record { response_limit = 1000; request_limit = 10; loop_limit = 3 }

abbrev pub idle : Machine (Unit {0})
idle = record {
  context = record {
    variables = [];
    remaining_requests = 5;
    loop_limit = 100;
    last_status = none;
    last_headers = [];
    last_body = [];
  };
  results = [];
  next_step_index = 0;
  events = [];
  world = tt;
}
