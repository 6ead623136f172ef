-- ===== src/Notices/Send.antt =====
-- `send_notifications`, `send_one` and `retry_delivery` of crates/qdrust-server/src/scheduler.rs,
-- with the ledger of store.rs. The channel's answers are those of the outbox; a call of the store
-- that fails is not modelled.
pub mod Attempts
pub mod Bindings
pub mod Failures
pub mod Ledger
use qdrust.Base.{
  ℕ, zero, suc, ◌+◌, ◌==◌, leb, ltb, Text, text_eq, codes, Bool, true, false, not, ◌&&◌, ◌||◌,
  or_else, keep_if, Option, none, some, List, [], ◌∷◌, ◌++◌, length, Result, ok, err, if◌then◌else◌,
}
use Prim.Native.Nat.{max}
use qdrust.Base.Decimal.{to_string}
use qdrust.Json.{Value, bool, number, string, null, object, no_fields, field, unsigned}
use qdrust.Runs.{Run, Queue, find, count_recent_failures}
use qdrust.Scheduler.{Task}
use qdrust.Notices.{
  Action, Channel, DefaultTemplate, Delivery, Desk, TemplateVars, render, notification_template,
  builtin_title_template, builtin_body_template, notification_channels_for_event, event_failure,
}
use qdrust.Notices.Deliver.{Outbox, Message, deliver}

-- A lookup over rows of two columns.
unfoldable pub column {ℓ} : {A : Type ℓ} → ℕ → List (ℕ × A) → Option A
column k [] = none
column k ((j, v) ∷ rows) = if j == k then some v else column k rows

unfoldable pub is_attempt : ℕ → ℕ → ℕ → Text → Delivery → Bool
is_attempt run_id action_id channel_id event r =
    r.run_id == run_id
    && r.action_id == action_id
    && r.channel_id == channel_id
    && text_eq r.event event

unfoldable pub count_notification_attempts : ℕ → ℕ → ℕ → Text → List Delivery → ℕ
unfolding is_attempt
count_notification_attempts run_id action_id channel_id event ledger =
    length (keep_if (is_attempt run_id action_id channel_id event) ledger)

has_event : ℕ → Text → DefaultTemplate → Bool
has_event owner event t = t.owner_id == owner && text_eq t.event event

default_of : ℕ → Text → List DefaultTemplate → Option DefaultTemplate
unfolding has_event
default_of owner event [] = none
default_of owner event (t ∷ ts) =
    if has_event owner event t then some t else default_of owner event ts

default_for : Option ℕ → Text → List DefaultTemplate → Option DefaultTemplate
unfolding default_of
default_for none event ts = none
default_for (some owner) event ts = default_of owner event ts

title_of : Option DefaultTemplate → Option Text
title_of none = none
title_of (some t) = t.title_template

body_of : Option DefaultTemplate → Option Text
body_of none = none
body_of (some t) = t.body_template

error_of : Result Text (Unit {0}) → Option Text
error_of (ok _) = none
error_of (err e) = some e

number_or_null : Option ℕ → Value
number_or_null none = null
number_or_null (some n) = number (unsigned n)

string_or_null : Option Text → Value
string_or_null none = null
string_or_null (some t) = string t

number_text : Option ℕ → Text
unfolding to_string
number_text none = []
number_text (some n) = to_string n

-- The time that a message tells: when the run finished, else when it was made, else the clock.
told_time : Option Run → ℕ → ℕ
told_time none now = now
told_time (some run) now = or_else run.finished_at run.created_at

log_text : Option Text → Option Run → List (ℕ × Text) → Text
unfolding column
log_text (some t) run logs = t
log_text none none logs = []
log_text none (some run) logs = or_else (column run.id logs) []

unfoldable pub is_automatic : Option Run → Bool
is_automatic none = false
is_automatic (some run) = not (text_eq run.trigger (codes "manual"))

-- Whether a binding lets a notification pass.
unfoldable pub is_wanted : Text → Bool → ℕ → Action × Channel → Bool
is_wanted event automatic failures (a, c) =
    not (a.automatic_only && not automatic)
    && not (text_eq event event_failure && ltb failures a.failure_threshold)

-- Failures in a row are counted for an outcome that is a failure.
pub failures_for : ℕ → Text → Queue → ℕ
unfolding count_recent_failures
failures_for task_id event q =
    if text_eq event event_failure then count_recent_failures task_id q else 0

-- The row of the ledger for what came of a message.
ledger_row : ℕ → Action × Channel → TemplateVars → Result Text (Unit {0}) → List Delivery → Delivery
unfolding count_notification_attempts error_of
ledger_row task_id (a, c) vars result ledger = record {
  run_id = vars.run_id;
  task_id = task_id;
  action_id = a.id;
  channel_id = c.id;
  channel_kind = c.kind;
  event = vars.event;
  attempt = suc (count_notification_attempts vars.run_id a.id c.id vars.event ledger);
  error = error_of result;
}

module _ {W : Type 0} (o : Outbox W) (format_time : ℕ → Option Text → Text) where
  unfoldable pub send_one :
      ℕ
      → Action × Channel
      → TemplateVars
      → Value
      → Option DefaultTemplate
      → Desk
      → W
      → Result Text (Unit {0}) × Desk × W
  unfolding render notification_template deliver ledger_row title_of body_of
  send_one task_id (a, c) vars payload owner_default d w =
      let message : Message = record {
        title = render vars (
            notification_template a.title_template (title_of owner_default) builtin_title_template);
        body =
            render vars
              (notification_template a.body_template (body_of owner_default) builtin_body_template);
        payload = payload;
      } in
      let (result, v) = deliver o c.kind c.config message (render vars) w in
      let row = ledger_row task_id (a, c) vars result d.ledger in
      (result, record d { ledger = d.ledger ++ row ∷ [] }, v)

  send_each :
      ℕ
      → List (Action × Channel)
      → TemplateVars
      → Value
      → Option DefaultTemplate
      → Desk
      → W
      → Desk × W
  unfolding send_one
  send_each task_id [] vars payload owner_default d w = (d, w)
  send_each task_id (b ∷ bs) vars payload owner_default d w =
      let (_, e, v) = send_one task_id b vars payload owner_default d w in
      send_each task_id bs vars payload owner_default e v

  send_bound :
      Option (List (Action × Channel))
      → Task
      → ℕ
      → Text
      → Option ℕ
      → Option Text
      → Option Text
      → ℕ
      → Desk
      → W
      → Desk × W
  unfolding send_each default_for column is_automatic is_wanted failures_for number_text told_time
      log_text number_or_null string_or_null find
  send_bound none task run_id event http_status error_message log_message now d w = (d, w)
  send_bound (some bindings) task run_id event http_status error_message log_message now d w =
      let run = find run_id d.queue.runs in
      let failures = failures_for task.id event d.queue in
      let vars : TemplateVars = record {
        event = event;
        task_id = task.id;
        task_name = task.name;
        run_id = run_id;
        status = number_text http_status;
        error = or_else error_message [];
        log = log_text log_message run d.logs;
        time = format_time (told_time run now) task.timezone;
      } in
      let payload = object (
        field (codes "error") (string_or_null error_message) (
          field (codes "event") (string event) (
            field (codes "http_status") (number_or_null http_status) (
              field (codes "run_id") (number (unsigned run_id)) (
                field (codes "task_id") (number (unsigned task.id))
                  (field (codes "task_name") (string task.name) no_fields)))))) in
      send_each task.id (keep_if (is_wanted event (is_automatic run) failures) bindings) vars
        payload (default_for (column task.id d.owners) event d.defaults) d w

  unfoldable pub send_notifications :
      Task → ℕ → Text → Option ℕ → Option Text → Option Text → ℕ → Desk → W → Desk × W
  unfolding send_bound notification_channels_for_event
  send_notifications task run_id event http_status error_message log_message now d w =
      send_bound (notification_channels_for_event task.id event d) task run_id event http_status
        error_message log_message now d w

  retry_vars : Run → Delivery → Task → Desk → TemplateVars
  unfolding number_text column
  retry_vars run delivery task d = record {
    event = delivery.event;
    task_id = task.id;
    task_name = task.name;
    run_id = run.id;
    status = number_text run.http_status;
    error = or_else run.error [];
    log = or_else (column run.id d.logs) [];
    time = format_time (or_else run.finished_at run.created_at) task.timezone;
  }

  retry_payload : Run → Delivery → Task → Value
  unfolding number_or_null string_or_null
  retry_payload run delivery task = object (
      field (codes "error") (string_or_null run.error) (
        field (codes "event") (string delivery.event) (
          field (codes "http_status") (number_or_null run.http_status) (
            field (codes "retry") (bool true) (
              field (codes "run_id") (number (unsigned run.id)) (
                field (codes "task_id") (number (unsigned task.id))
                  (field (codes "task_name") (string task.name) no_fields)))))))

  retry_run :
      Option Run → Delivery → Task → Action × Channel → Desk → W → Result Text (Unit {0}) × Desk × W
  unfolding send_one default_for column retry_vars retry_payload
  retry_run none delivery task b d w =
      (err (codes "the run this delivery belongs to no longer exists"), d, w)
  retry_run (some run) delivery task b d w =
      send_one task.id b (retry_vars run delivery task d) (retry_payload run delivery task)
        (default_for (column task.id d.owners) delivery.event d.defaults) d w

  unfoldable pub retry_delivery :
      Delivery → Task → Action × Channel → Desk → W → Result Text (Unit {0}) × Desk × W
  unfolding retry_run find
  retry_delivery delivery task b d w =
      retry_run (find delivery.run_id d.queue.runs) delivery task b d w
