-- ===== src/Scheduler.antt =====
-- The worker of crates/qdrust-server/src/scheduler.rs: what it makes of a task, and what it records
-- of a run.
pub mod Trace
pub mod Ticks
pub mod Worker
pub mod Conclude
use qdrust.Base.{
  ℕ, ◌-◌, leb, ltb, Text, codes, Bool, true, false, Option, none, some, is_some, or_else, List, [],
  ◌∷◌, map, keep_if, if◌then◌else◌,
}
use qdrust.Base.Dict.{Dict, insert}
use qdrust.Base.Int.{ℤ, pos, negsuc}
use qdrust.Json.{Value, Number, Fields, no_fields, field, null, bool, number, string, array, object}
use qdrust.Runs.{Run, Queue, enqueue_delayed_run, enqueue_run_with_trigger}

-- The columns of a task that the scheduler reads.
pub record Task : Type 0 where
  pub id : ℕ
  pub name : Text
  pub disabled : Bool
  pub cron : Text
  pub timezone : Option Text
  pub last_run_at : Option ℕ
  pub random_delay_max_seconds : Option ℤ
  pub timeout_seconds : Option ℤ
  pub retry_count : Option ℤ
  pub retry_interval_seconds : Option ℤ
  pub variables : Option Value

-- `filter(|v| *v > 0).unwrap_or(d)`
unfoldable pub positive_or : ℕ → Option ℤ → ℕ
positive_or d none = d
positive_or d (some (negsuc n)) = d
positive_or d (some (pos n)) = if leb 1 n then n else d

unfoldable pub last_run : Option ℕ → ℕ → ℕ
last_run none start = start
last_run (some t) start = if leb 1 t then t else start

by_now : ℕ → Option ℕ → Bool
by_now now none = false
by_now now (some next) = leb next now

-- The cron library: the moments of a schedule, in a time zone, after a given one; and the zones.
module _ {Zone : Type 0} (parse_zone : Text → Option Zone)
    (schedule : Text → Option (Zone → ℕ → Option ℕ)) where
  zone_of : Option Text → Zone → Zone
  zone_of none default_zone = default_zone
  zone_of (some name) default_zone = or_else (parse_zone name) default_zone

  due_by_schedule : Option (Zone → ℕ → Option ℕ) → Zone → ℕ → ℕ → Bool
  unfolding by_now
  due_by_schedule none zone since now = false
  due_by_schedule (some after) zone since now = by_now now (after zone since)

  unfoldable pub due : Task → ℕ → Zone → ℕ → Bool
  unfolding due_by_schedule zone_of last_run
  due task interval default_zone now =
      if task.disabled
      then false
      else due_by_schedule (schedule task.cron) (zone_of task.timezone default_zone)
          (last_run task.last_run_at (now - interval)) now

  -- What the ticker does for a task that is due; the jitter is drawn from 0 to the largest delay.
  unfoldable pub enqueue_due : Task → ℕ → ℕ → Queue → Queue
  unfolding enqueue_delayed_run enqueue_run_with_trigger positive_or
  enqueue_due task jitter now q =
      if leb 1 (positive_or 0 task.random_delay_max_seconds)
      then (enqueue_delayed_run task.id (pos jitter) now q).1
      else (enqueue_run_with_trigger task.id (codes "scheduled") now q).1

  unfoldable pub tick : ℕ → Zone → (Task → ℕ) → ℕ → List Task → Queue → Queue
  unfolding due enqueue_due
  tick interval default_zone jitter now [] q = q
  tick interval default_zone jitter now (task ∷ tasks) q =
      tick interval default_zone jitter now tasks
        (if due task interval default_zone now then enqueue_due task (jitter task) now q else q)

-- `Number::to_string` of serde_json is a parameter.
module _ (number_text : Number → Text) where
  scalar_text : Value → Option Text
  scalar_text (string s) = some s
  scalar_text (number n) = some (number_text n)
  scalar_text (bool true) = some (codes "true")
  scalar_text (bool false) = some (codes "false")
  scalar_text null = none
  scalar_text (array items) = none
  scalar_text (object members) = none

  add_variable : Text → Option Text → Dict Value → Dict Value
  add_variable name none variables = variables
  add_variable name (some t) variables = insert name (string t) variables

  scalar_variables : Fields → Dict Value → Dict Value
  unfolding add_variable scalar_text
  scalar_variables no_fields variables = variables
  scalar_variables (field name value rest) variables =
      scalar_variables rest (add_variable name (scalar_text value) variables)

  unfoldable pub task_variables : Option Value → Dict Value
  unfolding scalar_variables
  task_variables (some (object members)) = scalar_variables members []
  task_variables _ = []

pub record RunPolicy : Type 0 where
  pub request_timeout : ℕ
  pub allow_private_network : Bool
  pub allow_invalid_certificates : Bool

unfoldable pub run_policy : Option ℤ → Bool → Bool → RunPolicy
unfolding positive_or
run_policy timeout_seconds allow_private_network allow_invalid_certificates = record {
  request_timeout = positive_or 30 timeout_seconds;
  allow_private_network = allow_private_network;
  allow_invalid_certificates = allow_invalid_certificates;
}
