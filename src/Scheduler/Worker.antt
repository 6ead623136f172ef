-- ===== src/Scheduler/Worker.antt =====
-- The loop of a worker in scheduler.rs: one round, up to the execution.
use qdrust.Base.{
  ℕ, ◌+◌, ◌==◌, Text, text_eq_refl, Bool, true, false, not, ◌&&◌, Option, none, some, Result,
  if◌then◌else◌, ◌≡◌, refl, sym, subst, ◌∙◌, arith,
}
use mathlib.Core.Option.{some-injective}
use qdrust.Base.Int.{ℤ, pos, at_least}
use qdrust.Runs.{
  Run, running, Queue, find, is_leased, is_held, owned_by, is_free, lease, claim_run,
  start_leased_run, update_rows, recover_expired_runs,
}
use qdrust.Runs.Invariant.{IsSound, recovers, step}
use qdrust.Runs.Invariant.Step.{step-Change}
use qdrust.Runs.Safety.{Change-IsSound}
use qdrust.Runs.Claims.{find-updated, changed-ne-zero}
use qdrust.Runs.Leases.{taken, leased_row, claimable-free}
use qdrust.Scheduler.{Task}
use qdrust.Scheduler.Conclude.{Board, Observation, Success, conclude}
use qdrust.Scheduler.Conclude.Outcome.{FindsEnded, verdict, conclude-Ended}

module _ (priority : ℕ → ℤ) (task_of : ℕ → Option Task) (worker : Text) (now : ℕ) where
  -- The task of a run that could be started, and the run.
  with_task : Option Task → Run → Option (Task × Run)
  with_task none run = none
  with_task (some task) run = some (task, run)

  unfoldable pub start_claimed : Option Run × Queue → Option (Task × Run) × Queue
  unfolding with_task start_leased_run
  start_claimed (none, q) = (none, q)
  start_claimed (some run, q) =
      let (started, p) = start_leased_run run.id worker now q in
      ((if started then with_task (task_of run.task_id) run else none), p)

  -- What a round gives to the execution: the task and the run, where there is one.
  unfoldable pub worker_round : Queue → Option (Task × Run) × Queue
  unfolding start_claimed claim_run recover_expired_runs
  worker_round q =
      start_claimed (claim_run priority worker (pos 300) now (recover_expired_runs now q))

  -- A row that a worker runs.
  pub record RunsFor (run row : Run) : Type 0 where
    pub same_id : row.id ≡ run.id
    pub same_task : row.task_id ≡ run.task_id
    pub is_running : row.status ≡ running
    pub owner : row.lease_owner ≡ some worker
    pub until : row.lease_expires_at ≡ some (now + 300)
    pub started : row.started_at ≡ some now
    pub wanted : row.cancel_requested ≡ false

  abbrev may_start : ℕ → Run → Bool
  may_start id r =
      r.id == id && is_leased r.status && owned_by r.lease_owner worker && not r.cancel_requested

  wanted_row : (r : Run) → is_free now r ≡ true → r.cancel_requested ≡ false
  unfolding is_free
  wanted_row r h = ground (arith, h)

  recovered-IsSound : (q : Queue) → IsSound q → IsSound (recover_expired_runs now q)
  unfolding step
  recovered-IsSound q = Change-IsSound q _ (step-Change priority (λ t. t) now recovers q)

  module _ (q : Queue) (row : Run)
      (found : find row.id q.runs ≡ some (lease worker (now + 300) row))
      (free : row.cancel_requested ≡ false) where
    given : Run
    given = lease worker (now + 300) row

    started_row : Run
    started_row = record (lease worker (now + 300) row) { status = running; started_at = some now }

    may_start-given : may_start row.id given ≡ true
    unfolding given lease is_leased owned_by
    may_start-given = ground (arith, text_eq_refl worker, free)

    starts : (start_leased_run given.id worker now q).0 ≡ true
    unfolding start_leased_run update_rows given lease
    starts =
        let n =
          changed-ne-zero (may_start row.id) row.id q.runs found
            (unfold given in may_start-given) in
        ground (arith, n)

    started_found : find row.id (start_leased_run given.id worker now q).1.runs ≡ some started_row
    unfolding start_leased_run update_rows given started_row lease
    started_found =
        find-updated (may_start row.id) (λ r. record r { status = running; started_at = some now })
          (λ r. refl) row.id q.runs found (unfold given in may_start-given)

    started-RunsFor : RunsFor given started_row
    unfolding given started_row lease
    started-RunsFor = record {
      same_id = refl;
      same_task = refl;
      is_running = refl;
      owner = refl;
      until = refl;
      started = refl;
      wanted = free;
    }

  -- What is claimed can be started.
  claimed :
      (q p : Queue) {run : Run}
      → IsSound q
      → claim_run priority worker (pos 300) now q ≡ (some run, p)
      → ((start_leased_run run.id worker now p).0 ≡ true)
        × (row : Run) × (find run.id (start_leased_run run.id worker now p).1.runs ≡ some row)
        × RunsFor run row
  unfolding leased_row at_least
  claimed q p {run} v e =
      let t = taken priority worker (pos 300) now q p v.distinct e in
      let same : lease worker (now + 300) t.row ≡ run = sym (some-injective run _ t.result) in
      let here : (t.row.id == t.row.id) ≡ true = ground arith in
      let found : find t.row.id p.runs ≡ some (lease worker (now + 300) t.row) =
        t.table t.row.id ∙ rw here refl in
      let free : t.row.cancel_requested ≡ false =
        wanted_row t.row (claimable-free priority worker (pos 300) now q t.row t.claimable) in
      subst
        (λ r.
          ((start_leased_run r.id worker now p).0 ≡ true)
          × (row : Run) × (find r.id (start_leased_run r.id worker now p).1.runs ≡ some row)
          × RunsFor r row)
        same
        (unfold given in
          (
            starts p t.row found free,
            started_row p t.row found free,
            unfold lease in started_found p t.row found free,
            started-RunsFor p t.row found free,
          ))

  -- On a sound table, a round in which a run is claimed whose task there is gives the task and the run
  -- to the execution, and leaves the run's row running, owned by the worker for 300 seconds, and
  -- not to be cancelled.
  pub worker_round-RunsFor :
      (q p : Queue) {run : Run} {task : Task}
      → IsSound q
      → claim_run priority worker (pos 300) now (recover_expired_runs now q) ≡ (some run, p)
      → task_of run.task_id ≡ some task
      → ((worker_round q).0 ≡ some (task, run))
        × (row : Run) × (find run.id (worker_round q).1.runs ≡ some row)
        × RunsFor run row
  unfolding worker_round start_claimed with_task
  worker_round-RunsFor q p {run} {task} v e t =
      let (started, row, found, runs) =
        claimed (recover_expired_runs now q) p (recovered-IsSound q v) e in
      rw (e, started, t) (refl, row, found, runs)

  -- On a sound table, a run that a round claims, and whose execution is not disturbed by another
  -- change of the table, ends at the time of its conclusion with the status that its result gives:
  -- failed where the execution failed with a text without `execution cancelled`, else succeeded.
  pub worker_round-Ended :
      (redact : Text → Text) (q p : Queue) {run : Run} {task : Task} (later : ℕ)
      (seen : Observation) (result : Result Text Success) (b : Board)
      → IsSound q
      → claim_run priority worker (pos 300) now (recover_expired_runs now q) ≡ (some run, p)
      → task_of run.task_id ≡ some task
      → b.queue ≡ (worker_round q).1
      → (out : Run) × (find run.id (conclude redact task run later seen result b).queue.runs
          ≡ some out)
        × (out.status ≡ verdict false result)
        × (out.finished_at ≡ some later)
  unfolding FindsEnded is_held
  worker_round-Ended redact q p {run} {task} later seen result b v e t same =
      let (given_out, row, found, runs) = worker_round-RunsFor q p v e t in
      let held : is_held row.status ≡ true = rw runs.is_running refl in
      let (out, stands, ended) =
        conclude-Ended redact task run later seen result b row (rw same found) held in
      (out, stands, ended.status ∙ rw runs.wanted refl, ended.finished)
