-- ===== src/Tests/Workers.antt =====
-- The worker's accounts of a run, and a turn of the ticker, on small inputs.
use Prim.Native.Nat.{max}
use qdrust.Base.{
  ℕ, ◌≤◌, ◌+◌, codes, Text, true, false, Option, none, some, [], ◌∷◌, All, err, length, ◌≡◌, refl,
  arith,
}
use qdrust.Base.Int.{ℤ, pos, at_least}
use qdrust.Runs.{
  Run, Queue, running, find, new_run, is_held, is_active, has_active, first_row, update_where,
  is_claimable, is_pending, changed, count_retries, claim_run, recover_expired_runs, lease,
}
use qdrust.Runs.Invariant.{active_count, IsSound}
use qdrust.Scheduler.{Task}
use qdrust.Scheduler.Conclude.{Board, Observation, original_of, conclude}
use qdrust.Scheduler.Conclude.Outcome.{FindsEnded, verdict, conclude-Ended}
use qdrust.Scheduler.Conclude.Retries.{retry_limit, retries-conclude-le}
use qdrust.Scheduler.Worker.{worker_round, RunsFor, worker_round-RunsFor, worker_round-Ended}
use qdrust.Scheduler.Ticks.{is_due, turn, tick-has_active}

-- A task that asks for two retries, every 5 seconds.
abbrev pub task : Task
task = record {
  id = 7;
  name = codes "sign in";
  disabled = false;
  cron = codes "* * * * *";
  timezone = none;
  last_run_at = some 40;
  random_delay_max_seconds = none;
  timeout_seconds = none;
  retry_count = some (pos 2);
  retry_interval_seconds = some (pos 5);
  variables = none;
}

abbrev run : Run
run = record (new_run 1 7 10 none none (codes "manual")) { status = running; started_at = some 11 }

abbrev board : Board
board = record {
  queue = record { runs = run ∷ []; next_id = 2 };
  last_results = [];
  logs = [];
  steps = [];
  traces = [];
  told = [];
  notices = [];
}

abbrev unseen : Observation
unseen = record { stored_steps = []; trace = [] }

abbrev starred : Text → Text
starred t = codes "*"

conclude-Ended_example :
    FindsEnded starred task run 20
      (err (codes "timed out"))
      run
      (conclude starred task run 20 unseen (err (codes "timed out")) board).queue
unfolding new_run find is_held
conclude-Ended_example =
    conclude-Ended starred task run 20 unseen (err (codes "timed out")) board run refl refl

retries-conclude-le_example :
    (count_retries
        (original_of run)
        (conclude starred task run 20 unseen (err (codes "timed out")) board).queue
      ≤ max (count_retries (original_of run) board.queue) 2)
    × (length (conclude starred task run 20 unseen (err (codes "timed out")) board).queue.runs
          + count_retries (original_of run) board.queue
        ≡ length board.queue.runs
          + count_retries
              (original_of run)
              (conclude starred task run 20 unseen (err (codes "timed out")) board).queue)
retries-conclude-le_example =
    retries-conclude-le starred task run 20 unseen (err (codes "timed out")) board
      (unfold retry_limit in refl)

-- A schedule of every full minute, in one zone.
abbrev zones : Text → Option (Unit {0})
zones name = none

abbrev minutes : Text → Option (Unit {0} → ℕ → Option ℕ)
minutes cron = some (λ zone since. some (since + 60))

abbrev idle : Queue
idle = record { runs = []; next_id = 1 }

tick-has_active_example :
    All
      (λ t.
        is_due zones minutes 5 tt (λ t. 0) 100 t ≡ true
        → has_active t.id (turn zones minutes 5 tt (λ t. 0) 100 (task ∷ []) idle).runs ≡ true)
      (task ∷ [])
tick-has_active_example = tick-has_active zones minutes 5 tt (λ t. 0) 100 (task ∷ []) idle

-- A table in which the task's run waits.
abbrev waiting : Queue
waiting = record { runs = new_run 1 7 10 none none (codes "manual") ∷ []; next_id = 2 }

waiting_single : (id : ℕ) → active_count id waiting.runs ≤ 1
unfolding active_count is_active new_run
waiting_single id = ground arith

waiting-IsSound : IsSound waiting
unfolding new_run
waiting-IsSound = record { single = waiting_single; fresh = (omega arith, tt); distinct = (tt, tt) }

abbrev priority : ℕ → ℤ
priority id = pos 0

abbrev tasks : ℕ → Option Task
tasks id = some task

abbrev claimed : Option Run × Queue
claimed = claim_run priority (codes "w") (pos 300) 100 (recover_expired_runs 100 waiting)

abbrev taken_run : Run
taken_run = lease (codes "w") 400 (new_run 1 7 10 none none (codes "manual"))

claims_it : claimed ≡ (some taken_run, claimed.1)
unfolding claim_run recover_expired_runs lease new_run find at_least first_row update_where
    is_claimable is_held is_pending changed
claims_it = refl

worker_round-RunsFor_example :
    ((worker_round priority tasks (codes "w") 100 waiting).0 ≡ some (task, taken_run))
    × (row : Run) × (find taken_run.id (worker_round priority tasks (codes "w") 100 waiting).1.runs
        ≡ some row)
    × RunsFor priority tasks (codes "w") 100 taken_run row
worker_round-RunsFor_example =
    worker_round-RunsFor priority tasks (codes "w") 100 waiting claimed.1 waiting-IsSound claims_it
      refl

abbrev round_board : Board
round_board = record board { queue = (worker_round priority tasks (codes "w") 100 waiting).1 }

worker_round-Ended_example :
    (out : Run) × (find taken_run.id
        (conclude starred task taken_run 130 unseen
          (err (codes "timed out"))
          round_board).queue.runs
      ≡ some out)
    × (out.status ≡ verdict false (err (codes "timed out")))
    × (out.finished_at ≡ some 130)
worker_round-Ended_example =
    worker_round-Ended priority tasks (codes "w") 100 starred waiting claimed.1 130 unseen
      (err (codes "timed out")) round_board waiting-IsSound claims_it refl refl
