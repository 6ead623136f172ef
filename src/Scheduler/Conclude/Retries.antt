-- ===== src/Scheduler/Conclude/Retries.antt =====
-- How many retries the end of `execute_with_run` in scheduler.rs lets a run have.
use qdrust.Base.{
  ℕ, zero, suc, ◌&&◌, ◌≤◌, ◌==◌, Text, codes, contains, Bool, true, keep_if, Option, none, some,
  List, [], ◌∷◌, ◌++◌, length, length-append, ◌+◌, Result, ok, err, ◌≡◌, refl, arith, Bool-cases,
  inl, inr,
}
use Prim.Native.Nat.{max}
use qdrust.Base.Int.{ℤ, pos, negsuc}
use qdrust.Runs.{
  Run, Queue, is_held, update_where, finish_one, finish_run, schedule_retry, insert_guarded,
  has_active, is_retry_of, count_retries, new_run,
}
use qdrust.Scheduler.{Task, positive_or}
use qdrust.Scheduler.Trace.{bounded_error}
use qdrust.Scheduler.Conclude.{
  Board, Observation, Success, allows_retry, original_of, retry, conclude, conclude_success,
  conclude_cancelled, conclude_failure, conclude_error,
}

-- The rows that retry a run, counted.
retries_in : ℕ → List Run → ℕ
retries_in id rs = length (keep_if (λ r. is_retry_of id r.retry_of) rs)

retries_in-update :
    (id : ℕ) (test : Run → Bool) (change : Run → Run) (rs : List Run)
    → ((r : Run) → (change r).retry_of ≡ r.retry_of)
    → retries_in id (update_where test change rs) ≡ retries_in id rs
unfolding retries_in update_where
retries_in-update id test change [] k = refl
retries_in-update id test change (r ∷ rs) k =
    ground (arith, retries_in-update id test change rs k, k r)

retries_in-append :
    (id : ℕ) (rs : List Run) (r : Run) → retries_in id (rs ++ r ∷ []) ≤ suc (retries_in id rs)
unfolding retries_in
retries_in-append id [] r = ground arith
retries_in-append id (x ∷ rs) r = ground (arith, retries_in-append id rs r)

-- The retries that a task's setting allows in all, of which −1 stands for no limit.
unfoldable pub retry_limit : Option ℤ → Option ℕ
retry_limit none = some 0
retry_limit (some (pos n)) = some n
retry_limit (some (negsuc zero)) = none
retry_limit (some (negsuc (suc n))) = some 0

allows_retry-lt :
    (setting : Option ℤ) (done n : ℕ)
    → retry_limit setting ≡ some n
    → allows_retry setting done ≡ true
    → suc done ≤ n
unfolding retry_limit allows_retry
allows_retry-lt none done n h t = cc
allows_retry-lt (some (pos k)) done n h t = ground (arith, h, t)
allows_retry-lt (some (negsuc zero)) done n h t = cc
allows_retry-lt (some (negsuc (suc k))) done n h t = ground (arith, t)

count-finish :
    (redact : Text → Text) (id run_id : ℕ) (http_status : Option ℕ) (error : Option Text) (now : ℕ)
    (q : Queue)
    → count_retries id (finish_run redact run_id http_status error now q) ≡ count_retries id q
unfolding count_retries retries_in finish_run finish_one
count-finish redact id run_id http_status error now q =
    retries_in-update id (λ r. r.id == run_id && is_held r.status)
      (finish_one redact http_status error now) q.runs (λ r. refl)

count-schedule :
    (id task original : ℕ) (delay : ℤ) (now : ℕ) (q : Queue)
    → count_retries id (schedule_retry task original delay now q).1 ≤ suc (count_retries id q)
unfolding count_retries retries_in schedule_retry insert_guarded
count-schedule id task original delay now q = elim (Bool-cases (has_active task q.runs)) [
  | inl e ↦ rw e (omega arith)
  | inr e ↦ rw e (retries_in-append id q.runs _)
]

count-retry :
    (task : Task) (run : Run) (now : ℕ) (q : Queue) {n : ℕ}
    → retry_limit task.retry_count ≡ some n
    → count_retries (original_of run) (retry task run now q)
      ≤ max (count_retries (original_of run) q) n
unfolding retry
count-retry task run now q {n} h =
    let done = count_retries (original_of run) q in
    elim (Bool-cases (allows_retry task.retry_count done)) [
      | inl e ↦ rw e (
          omega (
            arith,
            allows_retry-lt task.retry_count done n h e,
            count-schedule (original_of run) task.id (original_of run)
                (pos (positive_or 60 task.retry_interval_seconds)) now q,
          ))
      | inr e ↦ rw e (omega arith)
    ]

-- Every row that was added is a retry of the run.
AddsRetries : ℕ → Queue → Queue → Type 0
AddsRetries id before after =
    length after.runs + count_retries id before ≡ length before.runs + count_retries id after

length-update :
    (test : Run → Bool) (change : Run → Run) (rs : List Run)
    → length (update_where test change rs) ≡ length rs
unfolding update_where
length-update test change [] = refl
length-update test change (r ∷ rs) = omega (arith, length-update test change rs)

finish_run-AddsRetries :
    (redact : Text → Text) (id run_id : ℕ) (http_status : Option ℕ) (error : Option Text) (now : ℕ)
    (q : Queue)
    → AddsRetries id q (finish_run redact run_id http_status error now q)
unfolding AddsRetries
finish_run-AddsRetries redact id run_id http_status error now q =
    omega (arith, count-finish redact id run_id http_status error now q, same_length)
  where
    same_length : length (finish_run redact run_id http_status error now q).runs ≡ length q.runs
    same_length =
        unfold finish_run in
        length-update (λ r. r.id == run_id && is_held r.status)
          (finish_one redact http_status error now) q.runs

retries_in-append_own :
    (id : ℕ) (rs : List Run) (r : Run)
    → r.retry_of ≡ some id
    → retries_in id (rs ++ r ∷ []) ≡ suc (retries_in id rs)
unfolding retries_in is_retry_of
retries_in-append_own id [] r h = rw h (ground arith)
retries_in-append_own id (x ∷ rs) r h = ground (arith, retries_in-append_own id rs r h)

schedule_retry-AddsRetries :
    (id task : ℕ) (delay : ℤ) (now : ℕ) (q : Queue)
    → AddsRetries id q (schedule_retry task id delay now q).1
unfolding AddsRetries count_retries retries_in schedule_retry insert_guarded new_run
schedule_retry-AddsRetries id task delay now q = elim (Bool-cases (has_active task q.runs)) [
  | inl e ↦ rw e refl
  | inr e ↦
      rw e (omega (arith, length-append q.runs (_ ∷ []), retries_in-append_own id q.runs _ refl))
]

retry-AddsRetries :
    (task : Task) (run : Run) (now : ℕ) (q : Queue)
    → AddsRetries (original_of run) q (retry task run now q)
unfolding retry
retry-AddsRetries task run now q =
    elim (Bool-cases (allows_retry task.retry_count (count_retries (original_of run) q))) [
      | inl e ↦ rw e (
          schedule_retry-AddsRetries (original_of run) task.id
            (pos (positive_or 60 task.retry_interval_seconds)) now q)
      | inr e ↦ rw e (unfold AddsRetries in refl)
    ]

trans-AddsRetries :
    (id : ℕ) (p q r : Queue) → AddsRetries id p q → AddsRetries id q r → AddsRetries id p r
unfolding AddsRetries
trans-AddsRetries id p q r h k = omega (arith, h, k)

module _ (redact : Text → Text) (task : Task) (run : Run) (now : ℕ) where
  count-conclude :
      (seen : Observation) (result : Result Text Success) (b : Board) {n : ℕ}
      → retry_limit task.retry_count ≡ some n
      → count_retries (original_of run) (conclude redact task run now seen result b).queue
        ≤ max (count_retries (original_of run) b.queue) n
  unfolding conclude conclude_success conclude_error conclude_cancelled conclude_failure
  count-conclude seen (ok s) b h =
      omega (arith, count-finish redact (original_of run) run.id (some s.status) none now b.queue)
  count-conclude seen (err chain) b h =
      let message = bounded_error chain in
      elim (Bool-cases (contains (codes "execution cancelled") message)) [
        | inl e ↦
            rw e (omega (arith, count-finish redact (original_of run) run.id none none now b.queue))
        | inr e ↦ rw e (
            omega (
              arith,
              count-retry task run now (finish_run redact run.id none (some message) now b.queue) h,
              count-finish redact (original_of run) run.id none (some message) now b.queue,
            ))
      ]

  conclude-AddsRetries :
      (seen : Observation) (result : Result Text Success) (b : Board)
      → AddsRetries (original_of run) b.queue (conclude redact task run now seen result b).queue
  unfolding conclude conclude_success conclude_error conclude_cancelled conclude_failure
  conclude-AddsRetries seen (ok s) b =
      finish_run-AddsRetries redact (original_of run) run.id (some s.status) none now b.queue
  conclude-AddsRetries seen (err chain) b =
      let message = bounded_error chain in
      let failed = finish_run redact run.id none (some message) now b.queue in
      elim (Bool-cases (contains (codes "execution cancelled") message)) [
        | inl e ↦
            rw e (finish_run-AddsRetries redact (original_of run) run.id none none now b.queue)
        | inr e ↦ rw e (
            trans-AddsRetries (original_of run) b.queue failed (retry task run now failed)
              (finish_run-AddsRetries redact (original_of run) run.id none (some message) now
                b.queue)
              (retry-AddsRetries task run now failed))
      ]

  -- The end of an execution never gives the chain of retries of a run more members than the task
  -- allows: their number is at most the larger of what it was and the limit, which is none where
  -- no retries are asked for or the setting is below −1. Every row that it adds is a member of that
  -- chain: the table grows by as many rows as the chain.
  pub retries-conclude-le :
      (seen : Observation) (result : Result Text Success) (b : Board) {n : ℕ}
      → retry_limit task.retry_count ≡ some n
      → (count_retries (original_of run) (conclude redact task run now seen result b).queue
          ≤ max (count_retries (original_of run) b.queue) n)
        × (length (conclude redact task run now seen result b).queue.runs
              + count_retries (original_of run) b.queue
            ≡ length b.queue.runs
              + count_retries (original_of run) (conclude redact task run now seen result b).queue)
  unfolding AddsRetries
  retries-conclude-le seen result b h =
      (count-conclude seen result b h, conclude-AddsRetries seen result b)
