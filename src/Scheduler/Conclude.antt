-- ===== src/Scheduler/Conclude.antt =====
-- The end of `execute_with_run` in scheduler.rs: what it records, tells and schedules. A write that
-- the store refuses is ignored there, and is taken to succeed here.
pub mod Outcome
pub mod Retries
use qdrust.Base.{
  ℕ, ◌==◌, leb, ltb, Text, codes, contains, Bool, true, false, not, ◌||◌, ◌&&◌, is_empty, Option,
  none, some, or_else, List, [], ◌∷◌, ◌++◌, Result, ok, err, if◌then◌else◌,
}
use qdrust.Base.Int.{ℤ, pos, negsuc}
use qdrust.Runs.{Run, Queue, finish_run, count_retries, schedule_retry}
use qdrust.Scheduler.{Task, positive_or}
use qdrust.Scheduler.Trace.{bounded_error, format_trace}

-- A step row, of which the execution fills in its own where a run failed before any.
pub record RunStep : Type 0 where
  pub run_id : ℕ
  pub step_index : ℕ
  pub name : Text
  pub has_failed : Bool
  pub http_status : Option ℕ
  pub body_size : ℕ
  pub error : Option Text
  pub started_at : ℕ
  pub finished_at : ℕ

pub data Ending : Type 0 where
  ended_well ended_badly ended_by_cancel : Ending

pub record Notice : Type 0 where
  pub succeeded_event : Bool
  pub http_status : Option ℕ
  pub error : Option Text
  pub log : Option Text

pub record Board : Type 0 where
  pub queue : Queue
  pub last_results : List (ℕ × Option ℕ × Option Text)
  pub logs : List (ℕ × Text)
  pub steps : List RunStep
  pub traces : List (ℕ × Text)
  pub told : List (ℕ × Ending)
  pub notices : List Notice

-- What the observer collected: the steps that were stored, and the texts of the trace.
pub record Observation : Type 0 where
  pub stored_steps : List RunStep
  pub trace : List Text

pub record Success : Type 0 where
  pub status : ℕ
  pub log : Option Text

unfoldable pub allows_retry : Option ℤ → ℕ → Bool
allows_retry none done = false
allows_retry (some (pos n)) done = ltb done n
allows_retry (some (negsuc n)) done = n == 0

unfoldable pub original_of : Run → ℕ
original_of run = or_else run.retry_of run.id

-- The retry that a failed run leaves behind.
unfoldable pub retry : Task → Run → ℕ → Queue → Queue
unfolding allows_retry original_of positive_or schedule_retry count_retries
retry task run now q =
    if allows_retry task.retry_count (count_retries (original_of run) q)
    then (schedule_retry task.id (original_of run)
        (pos (positive_or 60 task.retry_interval_seconds)) now q).1
    else q

unfoldable pub add_log : ℕ → Option Text → List (ℕ × Text) → List (ℕ × Text)
add_log id none logs = logs
add_log id (some t) logs = logs ++ (id, t) ∷ []

failed_step : Run → Text → ℕ → RunStep
failed_step run message now = record {
  run_id = run.id;
  step_index = 0;
  name = codes "execution";
  has_failed = true;
  http_status = none;
  body_size = 0;
  error = some message;
  started_at = now;
  finished_at = now;
}

module _ (redact : Text → Text) (task : Task) (run : Run) (now : ℕ) where
  unfoldable pub conclude_success : Success → Board → Board
  unfolding finish_run add_log
  conclude_success s b = record b {
    last_results = b.last_results ++ (task.id, some s.status, none) ∷ [];
    queue = finish_run redact run.id (some s.status) none now b.queue;
    logs = add_log run.id s.log b.logs;
    told = b.told ++ (run.id, ended_well) ∷ [];
    notices =
        b.notices
        ++ record { succeeded_event = true; http_status = some s.status; error = none; log = s.log }
          ∷ [];
  }

  unfoldable pub conclude_cancelled : Board → Board
  unfolding finish_run
  conclude_cancelled b = record b {
    queue = finish_run redact run.id none none now b.queue;
    told = b.told ++ (run.id, ended_by_cancel) ∷ [];
  }

  unfoldable pub conclude_failure : Observation → Text → Board → Board
  unfolding finish_run retry failed_step format_trace
  conclude_failure seen message b = record b {
    steps =
        if is_empty seen.stored_steps then b.steps ++ failed_step run message now ∷ [] else b.steps;
    last_results = b.last_results ++ (task.id, none, some message) ∷ [];
    traces = b.traces ++ (run.id, format_trace seen.trace message) ∷ [];
    queue = retry task run now (finish_run redact run.id none (some message) now b.queue);
    told = b.told ++ (run.id, ended_badly) ∷ [];
    notices =
        b.notices
        ++ record { succeeded_event = false; http_status = none; error = some message; log = none }
          ∷ [];
  }

  unfoldable pub conclude_error : Observation → Text → Board → Board
  unfolding conclude_cancelled conclude_failure
  conclude_error seen message b =
      if contains (codes "execution cancelled") message
      then conclude_cancelled b
      else conclude_failure seen message b

  -- The error is the chain of its causes as one text.
  unfoldable pub conclude : Observation → Result Text Success → Board → Board
  unfolding conclude_success conclude_error bounded_error
  conclude seen (ok s) b = conclude_success s b
  conclude seen (err chain) b = conclude_error seen (bounded_error chain) b
