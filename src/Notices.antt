-- ===== src/Notices.antt =====
-- crates/qdrust-server/src/delivery.rs and the tables of store.rs behind it: the channels over which
-- a run's outcome is told, what binds them to tasks, and the ledger of what was tried.
pub mod Deliver
pub mod Send
pub mod Previews
use qdrust.Base.{
  ℕ, zero, suc, ◌-◌, ◌==◌, leb, Text, text_eq, codes, starts_with, is_blank, Bool, true, false, not,
  ◌&&◌, ◌||◌, keep_if, Option, none, some, List, [], ◌∷◌, ◌++◌, length, if◌then◌else◌,
}
use qdrust.Base.Decimal.{to_string}
use qdrust.Json.{Value}
use qdrust.Runs.{Queue}

pub record Channel : Type 0 where
  pub id : ℕ
  pub kind : Text
  pub config : Value
  pub enabled : Bool

-- `NotificationAction`: a channel that a task is bound to.
pub record Action : Type 0 where
  pub id : ℕ
  pub task_id : ℕ
  pub channel_id : ℕ
  pub event : Text
  pub failure_threshold : ℕ
  pub automatic_only : Bool
  pub title_template : Option Text
  pub body_template : Option Text

pub record DefaultTemplate : Type 0 where
  pub owner_id : ℕ
  pub event : Text
  pub title_template : Option Text
  pub body_template : Option Text

-- A row of the ledger. Its status is `succeeded` where there is no error.
pub record Delivery : Type 0 where
  pub run_id : ℕ
  pub task_id : ℕ
  pub action_id : ℕ
  pub channel_id : ℕ
  pub channel_kind : Text
  pub event : Text
  pub attempt : ℕ
  pub error : Option Text

-- `owners` has the owner of each task that has one, `logs` the log of each run that has one.
pub record Desk : Type 0 where
  pub channels : List Channel
  pub actions : List Action
  pub defaults : List DefaultTemplate
  pub owners : List (ℕ × ℕ)
  pub queue : Queue
  pub logs : List (ℕ × Text)
  pub ledger : List Delivery

abbrev pub event_success : Text
event_success = codes "success"

abbrev pub event_failure : Text
event_failure = codes "failure"

abbrev pub event_always : Text
event_always = codes "always"

-- `str::replace` with a pattern that is not empty: what a match covers is skipped.
unfoldable pub replace_from : ℕ → Text → Text → Text → Text
replace_from skip from to [] = []
replace_from (suc skip) from to (c ∷ t) = replace_from skip from to t
replace_from zero from to (c ∷ t) = elim (starts_with from (c ∷ t)) [
  | true ↦ to ++ replace_from (length from - 1) from to t
  | false ↦ c ∷ replace_from zero from to t
]

unfoldable pub replace : Text → Text → Text → Text
unfolding replace_from starts_with
replace from to t = replace_from zero from to t

pub record TemplateVars : Type 0 where
  pub event : Text
  pub task_id : ℕ
  pub task_name : Text
  pub run_id : ℕ
  pub status : Text
  pub error : Text
  pub log : Text
  pub time : Text

unfoldable pub event_label : Text → Text
event_label event =
    if text_eq event event_success
    then codes "成功"
    else if text_eq event event_failure
    then codes "失败"
    else if text_eq event (codes "test")
    then codes "测试"
    else codes "通知"

unfoldable pub render : TemplateVars → Text → Text
unfolding replace event_label to_string
render v t = replace (codes "{t}") v.time (
    replace (codes "{log}") v.log (
      replace (codes "{error}") v.error (
        replace (codes "{status}") v.status (
          replace (codes "{run_id}") (to_string v.run_id) (
            replace (codes "{task}") v.task_name (
              replace (codes "{task_id}") (to_string v.task_id) (
                replace (codes "{status_cn}") (event_label v.event)
                  (replace (codes "{event}") v.event t))))))))

abbrev pub builtin_title_template : Text
builtin_title_template = codes "[qdrust] Task \"{task}\" {event}"

abbrev pub builtin_body_template : Text
builtin_body_template =
    codes
      "Task: {task}\nEvent: {event}\nRun: #{run_id}\nHTTP status: {status}\nError: {error}\nTime: {t}\nLog: {log}"

unfoldable pub not_blank : Option Text → Option Text
unfolding is_blank
not_blank none = none
not_blank (some t) = if is_blank t then none else some t

first_text : Option Text → Option Text → Text → Text
first_text (some t) o d = t
first_text none (some t) d = t
first_text none none d = d

unfoldable pub notification_template : Option Text → Option Text → Text → Text
unfolding not_blank first_text
notification_template binding owner_default builtin =
    first_text (not_blank binding) (not_blank owner_default) builtin

requested_event : Option Text → Option Text
requested_event none = none
requested_event (some value) =
    if text_eq value event_failure
    then some event_failure
    else if text_eq value event_success
    then some event_success
    else none

event_of_run : Option Bool → Text
event_of_run (some true) = event_failure
event_of_run _ = event_success

first_event : Option Text → Text → Text
first_event (some e) d = e
first_event none d = d

unfoldable pub preview_event : Text → Option Text → Option Bool → Text
unfolding requested_event event_of_run first_event
preview_event binding_event requested previewed_run_failed =
    if text_eq binding_event event_failure
    then event_failure
    else if text_eq binding_event event_always
    then first_event (requested_event requested) (event_of_run previewed_run_failed)
    else event_success

-- `a.event IN (?, 'always')`
unfoldable pub is_bound : ℕ → Text → Action → Bool
is_bound task_id event a =
    a.task_id == task_id && (text_eq a.event event || text_eq a.event event_always)

enabled_channel : ℕ → List Channel → Option Channel
enabled_channel id [] = none
enabled_channel id (c ∷ cs) = if c.id == id && c.enabled then some c else enabled_channel id cs

with_channel : Action → Option Channel → List (Action × Channel) → List (Action × Channel)
with_channel a none bindings = bindings
with_channel a (some c) bindings = (a, c) ∷ bindings

joined : List Channel → List Action → List (Action × Channel)
unfolding with_channel enabled_channel
joined channels [] = []
joined channels (a ∷ rest) =
    with_channel a (enabled_channel a.channel_id channels) (joined channels rest)

-- The bindings of a task that an event is for, with their channels; actions stand in the order of
-- their ids.
unfoldable pub notification_channels_for_event : ℕ → Text → Desk → Option (List (Action × Channel))
unfolding joined is_bound
notification_channels_for_event task_id event d =
    if text_eq event event_success || text_eq event event_failure
    then some (joined d.channels (keep_if (is_bound task_id event) d.actions))
    else none
