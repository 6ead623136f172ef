-- ===== src/Scheduler/Conclude/Outcome.antt =====
-- How the run's row in store.rs stands after the end of `execute_with_run` in scheduler.rs.
use qdrust.Base.{
  ℕ, ◌==◌, ==→eq, Text, codes, contains, Bool, true, false, ◌&&◌, Option, none, some, List, [], ◌∷◌,
  Result, ok, err, if◌then◌else◌, ◌≡◌, refl, arith, Bool-cases, inl, inr,
}
use qdrust.Base.Int.{pos}
use qdrust.Runs.{
  Status, succeeded, failed, cancelled, Run, Queue, is_held, find, finish_one, finish_run,
  schedule_retry, insert_guarded, has_active, count_retries,
}
use qdrust.Runs.Claims.{find-updated}
use qdrust.Runs.Invariant.{IsSound, finishes, retries, step}
use qdrust.Runs.Invariant.Step.{step-Change}
use qdrust.Runs.Safety.{Change-IsSound, find-append}
use qdrust.Scheduler.{Task, positive_or}
use qdrust.Scheduler.Trace.{bounded_error}
use qdrust.Scheduler.Conclude.{
  Board, Observation, Success, allows_retry, original_of, retry, conclude, conclude_success,
  conclude_cancelled, conclude_failure, conclude_error,
}

unfoldable pub is_cancellation : Text → Bool
is_cancellation chain = contains (codes "execution cancelled") (bounded_error chain)

-- The status that the row of an ended run has, by the wish to cancel it and by its result.
unfoldable pub verdict : Bool → Result Text Success → Status
unfolding is_cancellation
verdict true result = cancelled
verdict false (ok s) = succeeded
verdict false (err chain) = if is_cancellation chain then succeeded else failed

unfoldable pub error_of : (Text → Text) → Result Text Success → Option Text
unfolding is_cancellation
error_of redact (ok s) = none
error_of redact (err chain) =
    if is_cancellation chain then none else some (redact (bounded_error chain))

pub record Ended (redact : Text → Text) (result : Result Text Success) (now : ℕ) (r out : Run)
    : Type 0 where
  pub status : out.status ≡ verdict r.cancel_requested result
  pub error : out.error ≡ error_of redact result
  pub finished : out.finished_at ≡ some now
  pub unowned : out.lease_owner ≡ none
  pub unleased : out.lease_expires_at ≡ none

find-retry :
    (task : Task) (run : Run) (now id : ℕ) (q : Queue) {r : Run}
    → find id q.runs ≡ some r
    → find id (retry task run now q).runs ≡ some r
unfolding retry schedule_retry insert_guarded
find-retry task run now id q {r} h =
    elim (Bool-cases (allows_retry task.retry_count (count_retries (original_of run) q))) [
      | inl e ↦ rw e (elim (Bool-cases (has_active task.id q.runs)) [
        | inl f ↦ rw f h
        | inr f ↦ rw f (find-append id q.runs _ h)
      ])
      | inr e ↦ rw e h
    ]

find_id : (id : ℕ) (rs : List Run) {r : Run} → find id rs ≡ some r → r.id ≡ id
unfolding find
find_id id [] h = cc
find_id id (x ∷ rs) {r} h = ground (arith, find_id id rs {r = r}, h, ==→eq x.id id)

module _ (redact : Text → Text) (now : ℕ) (r : Run) where
  Ended-success :
      (s : Success) → Ended redact (ok s) now r (finish_one redact (some s.status) none now r)
  unfolding finish_one error_of verdict
  Ended-success s = record {
    status = elim (Bool-cases r.cancel_requested) [ inl e ↦ rw e refl | inr e ↦ rw e refl ];
    error = refl;
    finished = refl;
    unowned = refl;
    unleased = refl;
  }

  Ended-cancelled :
      (chain : Text)
      → is_cancellation chain ≡ true
      → Ended redact (err chain) now r (finish_one redact none none now r)
  unfolding finish_one error_of verdict
  Ended-cancelled chain c = record {
    status = elim (Bool-cases r.cancel_requested) [ inl e ↦ rw e refl | inr e ↦ rw (e, c) refl ];
    error = rw c refl;
    finished = refl;
    unowned = refl;
    unleased = refl;
  }

  Ended-failure :
      (chain : Text)
      → is_cancellation chain ≡ false
      → Ended redact (err chain) now r (finish_one redact none (some (bounded_error chain)) now r)
  unfolding finish_one error_of verdict
  Ended-failure chain c = record {
    status = elim (Bool-cases r.cancel_requested) [ inl e ↦ rw e refl | inr e ↦ rw (e, c) refl ];
    error = rw c refl;
    finished = refl;
    unowned = refl;
    unleased = refl;
  }

module _ (redact : Text → Text) (task : Task) (run : Run) (now : ℕ) where
  unfoldable pub FindsEnded : Result Text Success → Run → Queue → Type 0
  FindsEnded result r q =
      (out : Run) × (find run.id q.runs ≡ some out) × Ended redact result now r out

  find-finish :
      (http_status : Option ℕ) (error : Option Text) (q : Queue) {r : Run}
      → find run.id q.runs ≡ some r
      → is_held r.status ≡ true
      → find run.id (finish_run redact run.id http_status error now q).runs
        ≡ some (finish_one redact http_status error now r)
  unfolding finish_run finish_one
  find-finish http_status error q {r} h held =
      find-updated (λ x. x.id == run.id && is_held x.status)
        (finish_one redact http_status error now) (λ x. refl) run.id q.runs h
        (ground (arith, find_id run.id q.runs h))

  -- A run whose row is leased or running when its execution ends has ended: cancelled where that was
  -- asked for, else failed with the redacted error where the execution failed with a text that does
  -- not contain `execution cancelled`, else succeeded. It has no lease left, and a retry that is
  -- put in the queue leaves its row as it is.
  pub conclude-Ended :
      (seen : Observation) (result : Result Text Success) (b : Board) (r : Run)
      → find run.id b.queue.runs ≡ some r
      → is_held r.status ≡ true
      → FindsEnded result r (conclude redact task run now seen result b).queue
  unfolding FindsEnded conclude conclude_success conclude_error conclude_cancelled conclude_failure
      is_cancellation
  conclude-Ended seen (ok s) b r h held =
      (_, find-finish (some s.status) none b.queue h held, Ended-success redact now r s)
  conclude-Ended seen (err chain) b r h held = elim (Bool-cases (is_cancellation chain)) [
    | inl e ↦ rw e (_, find-finish none none b.queue h held, Ended-cancelled redact now r chain e)
    | inr e ↦ rw e (
      _,
      find-retry task run now run.id _
          (find-finish none (some (bounded_error chain)) b.queue h held),
      Ended-failure redact now r chain e,
    )
  ]

  finish_IsSound :
      (http_status : Option ℕ) (error : Option Text) (q : Queue)
      → IsSound q
      → IsSound (finish_run redact run.id http_status error now q)
  unfolding step
  finish_IsSound http_status error q =
      Change-IsSound q _ (step-Change (λ t. pos 0) redact now (finishes run.id http_status error) q)

  retry-IsSound : (q : Queue) → IsSound q → IsSound (retry task run now q)
  unfolding retry step
  retry-IsSound q v =
      elim (Bool-cases (allows_retry task.retry_count (count_retries (original_of run) q))) [
        | inl e ↦ rw e (
            Change-IsSound q _
              (step-Change (λ t. pos 0) redact now
                (retries task.id (original_of run)
                  (pos (positive_or 60 task.retry_interval_seconds)))
                q)
              v)
        | inr e ↦ rw e v
      ]

  -- The end of an execution, with the retry that it may enqueue, keeps a sound run table sound.
  pub conclude-IsSound :
      (seen : Observation) (result : Result Text Success) (b : Board)
      → IsSound b.queue
      → IsSound (conclude redact task run now seen result b).queue
  unfolding conclude conclude_success conclude_error conclude_cancelled conclude_failure
  conclude-IsSound seen (ok s) b v = finish_IsSound _ none b.queue v
  conclude-IsSound seen (err chain) b v =
      elim (Bool-cases (contains (codes "execution cancelled") (bounded_error chain))) [
        | inl e ↦ rw e (finish_IsSound none none b.queue v)
        | inr e ↦
            rw e (retry-IsSound _ (finish_IsSound none (some (bounded_error chain)) b.queue v))
      ]
