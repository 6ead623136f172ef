-- ===== src/History.antt =====
-- What crates/qdrust-server/src/store.rs keeps of runs beside their rows, and how runs are deleted: the
-- rows that name a run go first, since not every database cascades. Runs stand in the order of
-- their ids. `redact` of redact.rs is a parameter.
pub mod Whole
pub mod Pruned
use qdrust.Base.{
  ℕ, zero, suc, ◌+◌, ◌==◌, ltb, Text, Bool, true, false, not, ◌&&◌, any, keep_if, is_empty, Option,
  none, some, List, [], ◌∷◌, ◌++◌, map, length, take, if◌then◌else◌,
}
use qdrust.Runs.{Run, Queue}
use qdrust.Notices.{Delivery}

pub record RunStep : Type 0 where
  pub run_id : ℕ
  pub step_index : ℕ
  pub name : Text
  pub status : Text
  pub http_status : Option ℕ
  pub error : Option Text

-- `logs` and `traces` are the two columns of the table of runs that hold longer texts, by run;
-- `owners` has the owner of each task.
pub record History : Type 0 where
  pub queue : Queue
  pub logs : List (ℕ × Text)
  pub traces : List (ℕ × Text)
  pub steps : List RunStep
  pub deliveries : List Delivery
  pub owners : List (ℕ × ℕ)

is_run : ℕ → Run → Bool
is_run id r = r.id == id

unfoldable pub names_run : (Run → Bool) → List Run → ℕ → Bool
unfolding is_run
names_run test runs id = any (λ r. is_run id r && test r) runs

-- `SET column = ? WHERE`, for one run.
set_column : ℕ → Text → List Run → List (ℕ × Text) → List (ℕ × Text)
unfolding is_run
set_column id t runs rows =
    let rest = keep_if (λ (row : ℕ × Text). not (row.0 == id)) rows in
    if any (is_run id) runs then (id, t) ∷ rest else rest

redacted : (Text → Text) → Option Text → Option Text
redacted redact none = none
redacted redact (some t) = some (redact t)

is_other : ℕ → ℕ → Run → Bool
is_other task_id run_id r = r.task_id == task_id && not (r.id == run_id)

is_of_task : ℕ → Run → Bool
is_of_task task_id r = r.task_id == task_id

module _ (redact : Text → Text) where
  unfoldable pub record_run_log : ℕ → Text → History → History
  unfolding set_column
  record_run_log id log h = record h { logs = set_column id (redact log) h.queue.runs h.logs }

  -- The traces of the task's other runs go; the run has one where it is of the task.
  unfoldable pub record_latest_failed_run_trace : ℕ → ℕ → Text → History → History
  unfolding names_run is_other is_of_task
  record_latest_failed_run_trace task_id run_id trace h =
      let others =
        keep_if (λ (row : ℕ × Text). not (names_run (is_other task_id run_id) h.queue.runs row.0))
          h.traces in
      let rest = keep_if (λ (row : ℕ × Text). not (row.0 == run_id)) others in
      record h {
        traces =
            if names_run (is_of_task task_id) h.queue.runs run_id
            then (run_id, redact trace) ∷ rest
            else others;
      }

  unfoldable pub record_run_step : RunStep → History → History
  unfolding redacted
  record_run_step s h = record h {
    steps = h.steps ++ record s { error = redacted redact s.error } ∷ [];
  }

-- The runs that pass a test go with their columns; how many they were comes with them.
remove_runs : (Run → Bool) → History → ℕ × History
unfolding names_run
remove_runs test h = (
  length (keep_if test h.queue.runs),
  record h {
    queue = record (h.queue) { runs = keep_if (λ r. not (test r)) h.queue.runs };
    logs = keep_if (λ (row : ℕ × Text). not (names_run test h.queue.runs row.0)) h.logs;
    traces = keep_if (λ (row : ℕ × Text). not (names_run test h.queue.runs row.0)) h.traces;
  },
)

-- The rows of the two other tables that name a run.
remove_rows : (ℕ → Bool) → (Delivery → Bool) → History → History
remove_rows step_of delivery_of h = record h {
  steps = keep_if (λ (s : RunStep). not (step_of s.run_id)) h.steps;
  deliveries = keep_if (λ d. not (delivery_of d)) h.deliveries;
}

unfoldable pub delete_run : ℕ → History → Bool × History
unfolding is_run remove_runs remove_rows
delete_run id h =
    let b = remove_rows (λ n. n == id) (λ (d : Delivery). d.run_id == id) h in
    (any (is_run id) h.queue.runs, (remove_runs (is_run id) b).1)

owns : List (ℕ × ℕ) → ℕ → Run → Bool
owns owners owner r = any (λ (row : ℕ × ℕ). row.0 == r.task_id && row.1 == owner) owners

unfoldable pub delete_runs_for_owner : ℕ → History → ℕ × History
unfolding owns names_run remove_runs remove_rows
delete_runs_for_owner owner h =
    let named = names_run (owns h.owners owner) h.queue.runs in
    remove_runs (owns h.owners owner) (remove_rows named (λ (d : Delivery). named d.run_id) h)

unfoldable pub delete_all_runs : History → ℕ × History
unfolding remove_runs remove_rows
delete_all_runs h = remove_runs (λ r. true) (remove_rows (λ n. true) (λ d. true) h)

unfoldable pub delete_runs_for_task : ℕ → History → ℕ × History
unfolding is_of_task names_run remove_runs remove_rows
delete_runs_for_task task_id h = remove_runs (is_of_task task_id) (
    remove_rows (names_run (is_of_task task_id) h.queue.runs)
      (λ (d : Delivery). d.task_id == task_id) h)

finished_before : Option ℕ → ℕ → Bool
finished_before none before = false
finished_before (some t) before = ltb t before

unfoldable pub is_old : ℕ → Run → Bool
unfolding finished_before
is_old before r = finished_before r.finished_at before

unfoldable pub has : List ℕ → ℕ → Bool
has ids n = any (λ id. id == n) ids

abbrev pub batch : ℕ
batch = 500

unfoldable pub old_ids : ℕ → ℕ → List Run → List ℕ
unfolding is_old
old_ids limit before runs = map (λ (r : Run). r.id) (take limit (keep_if (is_old before) runs))

unfoldable pub delete_ids : List ℕ → History → History
unfolding has remove_runs remove_rows
delete_ids ids h =
    (remove_runs (λ r. has ids r.id)
      (remove_rows (has ids) (λ (d : Delivery). has ids d.run_id) h)).1

more_than : ℕ → Option (ℕ × History) → Option (ℕ × History)
more_than n none = none
more_than n (some (total, h)) = some (n + total, h)

-- The loop, on fuel.
unfoldable pub prune_loop : ℕ → ℕ → History → Option (ℕ × History)
unfolding old_ids delete_ids more_than
prune_loop zero before h = none
prune_loop (suc fuel) before h =
    let ids = old_ids batch before h.queue.runs in
    let rest = prune_loop fuel before (delete_ids ids h) in
    if is_empty ids
    then some (0, h)
    else if ltb (length ids) batch
    then some (length ids, delete_ids ids h)
    else more_than (length ids) rest

unfoldable pub prune_run_logs : ℕ → History → Option (ℕ × History)
unfolding prune_loop
prune_run_logs before h = prune_loop (suc (length h.queue.runs)) before h

unfoldable pub count_old_runs : ℕ → History → ℕ
unfolding is_old
count_old_runs before h = length (keep_if (is_old before) h.queue.runs)
