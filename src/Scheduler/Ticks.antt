-- ===== src/Scheduler/Ticks.antt =====
-- What one turn of the ticker of scheduler.rs puts in the run queue.
use qdrust.Base.{
  ℕ, leb, Text, Bool, true, false, Option, none, List, [], ◌∷◌, ◌++◌, All, if◌then◌else◌, ◌≡◌, ◌≢◌,
  refl, sym, ◌∙◌, arith, Bool-cases, inl, inr,
}
use mathlib.Core.Bool.{true≢false}
use qdrust.Runs.{
  Run, Queue, is_active, has_active, insert_guarded, new_run, enqueue_delayed_run,
  enqueue_run_with_trigger,
}
use qdrust.Runs.Invariant.{active_count, IsSound}
use qdrust.Runs.Invariant.Step.{insert-Change}
use qdrust.Runs.Safety.{Change-IsSound, active_count-other}
use qdrust.Scheduler.{Task, due, tick, enqueue_due, positive_or}

has_active-new :
    (task : ℕ) (rs : List Run) (r : Run)
    → r.task_id ≡ task
    → is_active r.status ≡ true
    → has_active task (rs ++ r ∷ []) ≡ true
unfolding has_active
has_active-new task [] r t a = ground arith
has_active-new task (x ∷ rs) r t a = ground (arith, has_active-new task rs r t a)

has_active-append :
    (task : ℕ) (rs : List Run) (r : Run)
    → has_active task rs ≡ true
    → has_active task (rs ++ r ∷ []) ≡ true
unfolding has_active
has_active-append task [] r h = cc
has_active-append task (x ∷ rs) r h = ground (arith, has_active-append task rs r)

module _ (task now : ℕ) (after original : Option ℕ) (trigger : Text) (q : Queue) where
  has_active-inserted :
      has_active task (insert_guarded task now after original trigger q).1.runs ≡ true
  unfolding insert_guarded new_run is_active
  has_active-inserted = elim (Bool-cases (has_active task q.runs)) [
    | inl e ↦ rw e e
    | inr e ↦ rw e (has_active-new task q.runs _ refl refl)
  ]

  has_active-kept :
      (other : ℕ)
      → has_active other q.runs ≡ true
      → has_active other (insert_guarded task now after original trigger q).1.runs ≡ true
  unfolding insert_guarded
  has_active-kept other h = elim (Bool-cases (has_active task q.runs)) [
    | inl e ↦ rw e h
    | inr e ↦ rw e (has_active-append other q.runs _ h)
  ]

  active_count-kept :
      (other : ℕ)
      → task ≢ other
      → active_count other (insert_guarded task now after original trigger q).1.runs
        ≡ active_count other q.runs
  unfolding insert_guarded new_run
  active_count-kept other n = elim (Bool-cases (has_active task q.runs)) [
    | inl e ↦ rw e refl
    | inr e ↦ rw e (active_count-other other q.runs _ n)
  ]

module _ {Zone : Type 0} (parse_zone : Text → Option Zone)
    (schedule : Text → Option (Zone → ℕ → Option ℕ)) (interval : ℕ) (zone : Zone)
    (jitter : Task → ℕ) (now : ℕ) where
  abbrev pub is_due : Task → Bool
  is_due task = due parse_zone schedule task interval zone now

  abbrev pub turn : List Task → Queue → Queue
  turn = tick parse_zone schedule interval zone jitter now

  abbrev enqueued : Task → Queue → Queue
  enqueued task = enqueue_due parse_zone schedule task (jitter task) now

  -- What holds of every guarded insert for a task holds of what the ticker does for it.
  enqueued_from :
      (P : Queue → Type 0) (task : Task) (q : Queue)
      → ((after : Option ℕ) (trigger : Text)
          → P (insert_guarded task.id now after none trigger q).1)
      → P (enqueued task q)
  unfolding enqueue_due enqueue_delayed_run enqueue_run_with_trigger
  enqueued_from P task q h =
      elim (Bool-cases (leb 1 (positive_or 0 task.random_delay_max_seconds))) [
        | inl e ↦ rw e (h _ _)
        | inr e ↦ rw e (h _ _)
      ]

  turned_from :
      (P : Queue → Type 0) (task : Task) (q : Queue)
      → P q
      → P (enqueued task q)
      → P (if is_due task then enqueued task q else q)
  turned_from P task q h k = elim (Bool-cases (is_due task)) [ inl e ↦ rw e k | inr e ↦ rw e h ]

  has_active-tick :
      (tasks : List Task) (q : Queue) (id : ℕ)
      → has_active id q.runs ≡ true
      → has_active id (turn tasks q).runs ≡ true
  unfolding tick
  has_active-tick [] q id h = h
  has_active-tick (task ∷ tasks) q id h = has_active-tick tasks _ id (
      turned_from (λ p. has_active id p.runs ≡ true) task q h
        (enqueued_from (λ p. has_active id p.runs ≡ true) task q
          (λ after trigger. has_active-kept task.id now after none trigger q id h)))

  -- After a turn of the ticker every task that was due has a run that is pending, leased or
  -- running.
  pub tick-has_active :
      (tasks : List Task) (q : Queue)
      → All (λ t. is_due t ≡ true → has_active t.id (turn tasks q).runs ≡ true) tasks
  unfolding tick
  tick-has_active [] q = tt
  tick-has_active (task ∷ tasks) q = (
    λ e. has_active-tick tasks _ task.id (
        rw e (
          enqueued_from (λ p. has_active task.id p.runs ≡ true) task q
            (λ after trigger. has_active-inserted task.id now after none trigger q))),
    tick-has_active tasks _,
  )

  -- A turn of the ticker gives no run to a task that is not among those that are due, and none to
  -- a task that has one: the number of the pending, leased and running rows of a task stays as it
  -- was where every task with its id is not due.
  pub active_count-tick :
      (tasks : List Task) (q : Queue) (id : ℕ)
      → All (λ t. t.id ≡ id → is_due t ≡ false) tasks
      → active_count id (turn tasks q).runs ≡ active_count id q.runs
  unfolding tick
  active_count-tick [] q id h = refl
  active_count-tick (task ∷ tasks) q id (n, h) =
      active_count-tick tasks _ id h ∙ elim (Bool-cases (is_due task)) [
        | inl e ↦ rw e (
            enqueued_from (λ p. active_count id p.runs ≡ active_count id q.runs) task q
              (λ after trigger.
                active_count-kept task.id now after none trigger q id
                  (λ k. true≢false (sym e ∙ n k))))
        | inr e ↦ rw e refl
      ]

  -- A turn of the ticker keeps a sound run table sound.
  pub tick-IsSound : (tasks : List Task) (q : Queue) → IsSound q → IsSound (turn tasks q)
  unfolding tick
  tick-IsSound [] q v = v
  tick-IsSound (task ∷ tasks) q v = tick-IsSound tasks _ (
      turned_from IsSound task q v (
        enqueued_from IsSound task q
          (λ after trigger. Change-IsSound q _ (insert-Change task.id now after none trigger q) v)))
