-- ===== src/Runs.antt =====
-- crates/qdrust-server/src/store.rs: the queue of runs with its leases. A method is one SQL
-- statement or one transaction; the clock is an argument, in seconds.
pub mod Invariant
pub mod Safety
pub mod Claims
pub mod Leases
use qdrust.Base.{
  ℕ, suc, ◌+◌, ◌==◌, leb, ltb, Text, text_eq, codes, Bool, true, false, not, ◌&&◌, ◌||◌, any,
  keep_if, is_some, Option, none, some, List, [], ◌∷◌, ◌++◌, length, if◌then◌else◌,
}
use Prim.Native.Nat.{max}
use qdrust.Base.Int.{ℤ, pos, less, at_least}

pub data Status : Type 0 where
  pending leased running succeeded failed cancelled : Status

pub record Run : Type 0 where
  pub id : ℕ
  pub task_id : ℕ
  pub status : Status
  pub created_at : ℕ
  pub started_at : Option ℕ
  pub finished_at : Option ℕ
  pub http_status : Option ℕ
  pub error : Option Text
  pub lease_owner : Option Text
  pub lease_expires_at : Option ℕ
  pub attempt : ℕ
  pub cancel_requested : Bool
  pub run_after : Option ℕ
  pub retry_of : Option ℕ
  pub trigger : Text

-- The table, and the id that the next insert gives.
pub record Queue : Type 0 where
  pub runs : List Run
  pub next_id : ℕ

unfoldable pub is_pending : Status → Bool
is_pending pending = true
is_pending _ = false

-- `status IN ('leased','running')`
unfoldable pub is_held : Status → Bool
is_held leased = true
is_held running = true
is_held _ = false

-- `status IN ('pending','leased','running')`
unfoldable pub is_active : Status → Bool
is_active pending = true
is_active leased = true
is_active running = true
is_active _ = false

unfoldable pub is_leased : Status → Bool
is_leased leased = true
is_leased _ = false

unfoldable pub is_failed : Status → Bool
is_failed failed = true
is_failed _ = false

-- A comparison with NULL does not hold.
unfoldable pub due_by : Option ℕ → ℕ → Bool
due_by none now = false
due_by (some t) now = leb t now

unfoldable pub owned_by : Option Text → Text → Bool
owned_by none worker = false
owned_by (some w) worker = text_eq w worker

unfoldable pub has_active : ℕ → List Run → Bool
has_active task_id = any (λ r. r.task_id == task_id && is_active r.status)

unfoldable pub find : ℕ → List Run → Option Run
find id [] = none
find id (r ∷ rs) = if r.id == id then some r else find id rs

-- `UPDATE … WHERE`: the rows after it, and how many it changed.
unfoldable pub update_where : (Run → Bool) → (Run → Run) → List Run → List Run
update_where test change [] = []
update_where test change (r ∷ rs) = (if test r then change r else r) ∷ update_where test change rs

unfoldable pub changed : (Run → Bool) → List Run → ℕ
changed test rs = length (keep_if test rs)

unfoldable pub new_run : ℕ → ℕ → ℕ → Option ℕ → Option ℕ → Text → Run
new_run id task_id now run_after retry_of trigger = record {
  id = id;
  task_id = task_id;
  status = pending;
  created_at = now;
  started_at = none;
  finished_at = none;
  http_status = none;
  error = none;
  lease_owner = none;
  lease_expires_at = none;
  attempt = 0;
  cancel_requested = false;
  run_after = run_after;
  retry_of = retry_of;
  trigger = trigger;
}

-- `INSERT … SELECT … WHERE NOT EXISTS` of the three methods that enqueue.
unfoldable pub insert_guarded : ℕ → ℕ → Option ℕ → Option ℕ → Text → Queue → Option Run × Queue
unfolding new_run
insert_guarded task_id now run_after retry_of trigger q =
    if has_active task_id q.runs
    then (none, q)
    else let r = new_run q.next_id task_id now run_after retry_of trigger in
      (some r, record { runs = q.runs ++ r ∷ []; next_id = suc q.next_id })

unfoldable pub enqueue_run_with_trigger : ℕ → Text → ℕ → Queue → Option Run × Queue
unfolding insert_guarded
enqueue_run_with_trigger task_id trigger now = insert_guarded task_id now none none trigger

unfoldable pub enqueue_run : ℕ → ℕ → Queue → Option Run × Queue
unfolding enqueue_run_with_trigger
enqueue_run task_id = enqueue_run_with_trigger task_id (codes "manual")

unfoldable pub enqueue_delayed_run : ℕ → ℤ → ℕ → Queue → Option Run × Queue
unfolding insert_guarded
enqueue_delayed_run task_id delay now =
    insert_guarded task_id now (some (now + at_least 0 delay)) none (codes "scheduled")

unfoldable pub schedule_retry : ℕ → ℕ → ℤ → ℕ → Queue → Option Run × Queue
unfolding insert_guarded
schedule_retry task_id retry_of delay now =
    insert_guarded task_id now (some (now + at_least 1 delay)) (some retry_of) (codes "retry")

unfoldable pub is_retry_of : ℕ → Option ℕ → Bool
is_retry_of id none = false
is_retry_of id (some n) = n == id

unfoldable pub count_retries : ℕ → Queue → ℕ
unfolding is_retry_of
count_retries id q = length (keep_if (λ r. is_retry_of id r.retry_of) q.runs)

unfoldable pub is_task_row : (Status → Bool) → ℕ → Run → Bool
is_task_row test task_id r = r.task_id == task_id && test r.status

unfoldable pub is_succeeded : Status → Bool
is_succeeded succeeded = true
is_succeeded _ = false

unfoldable pub latest_created : List Run → ℕ
latest_created [] = 0
latest_created (r ∷ rs) = max r.created_at (latest_created rs)

unfoldable pub count_recent_failures : ℕ → Queue → ℕ
unfolding is_task_row is_succeeded latest_created
count_recent_failures task_id q =
    let since = latest_created (keep_if (is_task_row is_succeeded task_id) q.runs) in
    length (keep_if (λ r. is_task_row is_failed task_id r && leb since r.created_at) q.runs)

-- Rows that `claim_run` may take: the lease part is tested twice, in the select and the update.
unfoldable pub is_free : ℕ → Run → Bool
unfolding due_by
is_free now r =
    not r.cancel_requested
    && (is_pending r.status || is_held r.status && due_by r.lease_expires_at now)

not_before : Option ℕ → ℕ → Bool
unfolding due_by
not_before none now = true
not_before (some t) now = due_by (some t) now

unfoldable pub is_claimable : ℕ → Run → Bool
unfolding is_free not_before
is_claimable now r = is_free now r && not_before r.run_after now

-- `r.created_at, r.id`
unfoldable pub is_older : Run → Run → Bool
is_older a b =
    if ltb a.created_at b.created_at
    then true
    else if ltb b.created_at a.created_at
    then false
    else ltb a.id b.id

-- `ORDER BY COALESCE(t.priority,0) DESC, r.created_at, r.id`, over the priorities of the tasks.
unfoldable pub comes_before : (ℕ → ℤ) → Run → Run → Bool
comes_before priority a b =
    if less (priority b.task_id) (priority a.task_id)
    then true
    else if less (priority a.task_id) (priority b.task_id)
    then false
    else is_older a b

unfoldable pub choose : (ℕ → ℤ) → Run → Option Run → Run
choose priority r none = r
choose priority r (some b) = if comes_before priority b r then b else r

-- `LIMIT 1` of the ordered rows.
unfoldable pub first_row : (ℕ → ℤ) → List Run → Option Run
unfolding choose
first_row priority [] = none
first_row priority (r ∷ rs) = some (choose priority r (first_row priority rs))

unfoldable pub lease : Text → ℕ → Run → Run
lease worker expires r = record r {
  status = leased;
  lease_owner = some worker;
  lease_expires_at = some expires;
  attempt = r.attempt + 1;
}

unfoldable pub claim_row : Text → ℕ → ℕ → Option Run → Queue → Option Run × Queue
unfolding lease
claim_row worker expires now none q = (none, q)
claim_row worker expires now (some b) q =
    let test = λ (r : Run). r.id == b.id && is_free now r in
    let rows = update_where test (lease worker expires) q.runs in
    if changed test q.runs == 0 then (none, q) else (find b.id rows, record q { runs = rows })

unfoldable pub claim_run : (ℕ → ℤ) → Text → ℤ → ℕ → Queue → Option Run × Queue
unfolding claim_row
claim_run priority worker lease_seconds now q =
    claim_row worker (now + at_least 1 lease_seconds) now
      (first_row priority (keep_if (is_claimable now) q.runs)) q

-- `execute(…).rows_affected() > 0`
unfoldable pub update_rows : (Run → Bool) → (Run → Run) → Queue → Bool × Queue
update_rows test change q =
    (ltb 0 (changed test q.runs), record q { runs = update_where test change q.runs })

unfoldable pub start_leased_run : ℕ → Text → ℕ → Queue → Bool × Queue
unfolding update_rows
start_leased_run id worker now =
    update_rows
      (λ r.
        r.id == id && is_leased r.status && owned_by r.lease_owner worker && not r.cancel_requested)
      (λ r. record r { status = running; started_at = some now })

unfoldable pub renew_run : ℕ → Text → ℤ → ℕ → Queue → Bool × Queue
unfolding update_rows
renew_run id worker lease_seconds now =
    update_rows (λ r. r.id == id && is_held r.status && owned_by r.lease_owner worker)
      (λ r. record r { lease_expires_at = some (now + at_least 1 lease_seconds) })

unfoldable pub cancel_one : ℕ → Run → Run
cancel_one now r =
    if is_pending r.status
    then record r { status = cancelled; cancel_requested = true; finished_at = some now }
    else record r { cancel_requested = true }

unfoldable pub cancel_run : ℕ → ℕ → Queue → Bool × Queue
unfolding update_rows cancel_one
cancel_run id now = update_rows (λ r. r.id == id && is_active r.status) (cancel_one now)

unfoldable pub recover_one : ℕ → Run → Run
recover_one now r =
    if r.cancel_requested
    then record r {
      status = cancelled;
      lease_owner = none;
      lease_expires_at = none;
      finished_at = some now;
    }
    else record r { status = pending; lease_owner = none; lease_expires_at = none }

unfoldable pub recover_expired_runs : ℕ → Queue → Queue
unfolding recover_one
recover_expired_runs now q = record q {
  runs =
      update_where (λ r. is_held r.status && due_by r.lease_expires_at now) (recover_one now)
        q.runs;
}

-- The error text goes through `redact`, which is a parameter here.
unfoldable pub finish_one : (Text → Text) → Option ℕ → Option Text → ℕ → Run → Run
finish_one redact http_status error now r = record r {
  status = if r.cancel_requested then cancelled else if is_some error then failed else succeeded;
  http_status = http_status;
  error = elim error [ none ↦ none | some e ↦ some (redact e) ];
  finished_at = some now;
  lease_owner = none;
  lease_expires_at = none;
}

unfoldable pub finish_run : (Text → Text) → ℕ → Option ℕ → Option Text → ℕ → Queue → Queue
unfolding finish_one
finish_run redact id http_status error now q = record q {
  runs =
      update_where (λ r. r.id == id && is_held r.status) (finish_one redact http_status error now)
        q.runs;
}

-- `start_run`: no guard, and no lease; the trigger is the column's default.
unfoldable pub start_run : ℕ → ℕ → Queue → Run × Queue
unfolding new_run
start_run task_id now q =
    let r = record (new_run q.next_id task_id now none none (codes "scheduled")) {
      status = running;
      started_at = some now;
      attempt = 1;
    } in
    (r, record { runs = q.runs ++ r ∷ []; next_id = suc q.next_id })
