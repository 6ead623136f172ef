-- ===== src/Tests/Tellings.antt =====
-- A failed run that is told over two channels, of which one answers that it cannot be reached.
use qdrust.Base.{
  ℕ, Text, codes, text_eq, true, false, Option, none, some, List, [], ◌∷◌, ◌++◌, map, ok, ◌≡◌, refl,
  if◌then◌else◌,
}
use qdrust.Json.{object, string, no_fields, field}
use qdrust.Runs.{new_run, is_failed, Status}
use qdrust.Notices.{
  Action, Channel, Delivery, Desk, render, event_failure, event_always, is_bound, preview_event,
}
use qdrust.Notices.Previews.{preview_event-is_bound}
use qdrust.Notices.Deliver.{Outbox, Reply}
use qdrust.Notices.Send.{send_notifications}
use qdrust.Notices.Send.Attempts.{IsNumbered}
use qdrust.Notices.Send.Bindings.{Selected}
use qdrust.Notices.Send.Ledger.{
  Telling, outcome, again, tell_all, tell_all-IsNumbered, key_of, keys_for, send_notifications-keys,
}
use qdrust.Tests.Workers.{task}

-- A world that lists the addresses that were asked.
abbrev outbox : Outbox (List Text)
outbox = record {
  is_http_method = λ m. true;
  request = λ method url headers body w.
      (if text_eq url (codes "down") then Reply.failed else Reply.succeeded, w ++ url ∷ []);
  normalize_recipient = λ to. some to;
  send_mail = λ to from title body w. (ok tt, w);
  is_push_channel = λ k. false;
  push_to_channel = λ k config title body w. (ok tt, w);
}

abbrev clock : ℕ → Option Text → Text
clock t place = []

abbrev hook : ℕ → Text → Channel
hook id url = record {
  id = id;
  kind = codes "webhook";
  config = object (field (codes "url") (string url) no_fields);
  enabled = true;
}

abbrev binding : ℕ → ℕ → Text → ℕ → Action
binding id channel_id event threshold = record {
  id = id;
  task_id = 7;
  channel_id = channel_id;
  event = event;
  failure_threshold = threshold;
  automatic_only = false;
  title_template = none;
  body_template = none;
}

abbrev desk : Desk
desk = record {
  channels = hook 1 (codes "up") ∷ hook 2 (codes "down") ∷ [];
  actions =
      binding 4 1 event_always 1 ∷ binding 5 2 event_failure 1 ∷ binding 6 1 event_failure 3 ∷ [];
  defaults = [];
  owners = (7, 1) ∷ [];
  queue = record {
    runs = record (new_run 3 7 10 none none (codes "cron")) { status = Status.failed } ∷ [];
    next_id = 4;
  };
  logs = [];
  ledger = [];
}

send_notifications-keys_example :
    (bindings : List (Action × Channel)) × (rows : List Delivery) × Selected desk 7 3 event_failure
      desk.actions bindings
    × ((send_notifications outbox clock task 3 event_failure none none none 20 desk []).0.ledger
        ≡ [] ++ rows)
    × (map key_of rows ≡ keys_for 3 event_failure bindings)
send_notifications-keys_example =
    send_notifications-keys outbox clock task 3 event_failure none none none 20 desk []

abbrev first_try : Delivery
first_try = record {
  run_id = 3;
  task_id = 7;
  action_id = 5;
  channel_id = 2;
  channel_kind = codes "webhook";
  event = event_failure;
  attempt = 1;
  error = some (codes "webhook delivery failed");
}

abbrev tellings : List Telling
tellings =
    outcome task 3 event_failure none none none 20
    ∷ again first_try task (binding 5 2 event_failure 1, hook 2 (codes "down"))
    ∷ []

tell_all-IsNumbered_example : IsNumbered (tell_all outbox clock tellings (desk, [])).0.ledger
tell_all-IsNumbered_example =
    tell_all-IsNumbered outbox clock tellings desk [] (unfold IsNumbered in tt)

-- The binding that waits for a third failure is left out, and the second try is counted.
attempts_told :
    map {B = ℕ × ℕ}
      (λ (r : Delivery). (r.action_id, r.attempt))
      (tell_all outbox clock tellings (desk, [])).0.ledger
    ≡ (4, 1) ∷ (5, 1) ∷ (5, 2) ∷ []
unfolding tell_all new_run is_failed
attempts_told = refl

-- A value that holds a later placeholder is taken for one.
expanded_twice :
    render
      (record {
        event = event_failure;
        task_id = 7;
        task_name = codes "{log}";
        run_id = 3;
        status = [];
        error = [];
        log = codes "secret";
        time = [];
      })
      (codes "{task}")
    ≡ codes "secret"
unfolding render
expanded_twice = refl

preview_event-is_bound_example :
    preview_event event_always (some event_failure) (some false) ≡ event_failure
preview_event-is_bound_example =
    preview_event-is_bound 7 event_failure (binding 4 1 event_always 1) (some false) refl
      (unfold is_bound in refl)
