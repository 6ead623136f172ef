-- ===== src/Runs/Invariant/Step.antt =====
-- The two kinds of change that the statements of store.rs make to the run table.
use qdrust.Base.{
  ℕ, suc, ◌==◌, Text, Bool, true, false, not, ◌&&◌, Option, none, some, [], ◌∷◌, ◌++◌, ◌≡◌, refl,
  arith, Bool-cases, inl, inr,
}
use qdrust.Base.Int.{ℤ}
use qdrust.Runs.{
  Status, running, Run, Queue, is_active, is_held, is_leased, is_pending, has_active, update_where,
  insert_guarded, new_run, enqueue_run_with_trigger, enqueue_delayed_run, schedule_retry, claim_run,
  claim_row, is_free, lease, start_leased_run, renew_run, cancel_run, cancel_one,
  recover_expired_runs, recover_one, finish_run, finish_one, changed, update_rows, due_by, owned_by,
}
use qdrust.Runs.Invariant.{
  Op, enqueues, enqueues_delayed, retries, claims, starts, renews, cancels, recovers, finishes,
  step, IsUpdate,
}

pub data Change (q : Queue) : Queue → Type 0 where
  same : Change q q
  updates :
      (test : Run → Bool) (change : Run → Run)
      → IsUpdate test change
      → Change q (record q { runs = update_where test change q.runs })
  inserts :
      (task : ℕ) (r : Run)
      → has_active task q.runs ≡ false
      → r.task_id ≡ task
      → r.id ≡ q.next_id
      → Change q (record { runs = q.runs ++ r ∷ []; next_id = suc q.next_id })

pub insert-Change :
    (task now : ℕ) (after original : Option ℕ) (trigger : Text) (q : Queue)
    → Change q (insert_guarded task now after original trigger q).1
unfolding insert_guarded new_run
insert-Change task now after original trigger q = elim (Bool-cases (has_active task q.runs)) [
  | inl e ↦ rw e same
  | inr e ↦ rw e (inserts task (new_run q.next_id task now after original trigger) e refl refl)
]

lease-IsUpdate :
    (id now : ℕ) (worker : Text) (expires : ℕ)
    → IsUpdate (λ r. r.id == id && is_free now r) (lease worker expires)
unfolding lease is_free is_active is_pending is_held
lease-IsUpdate id now worker expires = record {
  same_id = λ r. refl;
  same_task = λ r. refl;
  was_active = λ r h. ground arith;
}

active-of-held : (s : Status) → is_held s ≡ true → is_active s ≡ true
unfolding is_held is_active
active-of-held s h = ground arith

start-IsUpdate :
    (id now : ℕ) (worker : Text)
    → IsUpdate
        (λ r.
          r.id == id
          && is_leased r.status
          && owned_by r.lease_owner worker
          && not r.cancel_requested)
        (λ r. record r { status = running; started_at = some now })
unfolding is_leased is_active
start-IsUpdate id now worker = record {
  same_id = λ r. refl;
  same_task = λ r. refl;
  was_active = λ r h. ground arith;
}

renew-IsUpdate :
    (id expires : ℕ) (worker : Text)
    → IsUpdate
        (λ r. r.id == id && is_held r.status && owned_by r.lease_owner worker)
        (λ r. record r { lease_expires_at = some expires })
renew-IsUpdate id expires worker = record {
  same_id = λ r. refl;
  same_task = λ r. refl;
  was_active = λ r h. ground (arith, active-of-held r.status);
}

cancel-IsUpdate : (id now : ℕ) → IsUpdate (λ r. r.id == id && is_active r.status) (cancel_one now)
unfolding cancel_one
cancel-IsUpdate id now = record {
  same_id = λ r. ground arith;
  same_task = λ r. ground arith;
  was_active = λ r h. ground arith;
}

recover-IsUpdate :
    (now : ℕ) → IsUpdate (λ r. is_held r.status && due_by r.lease_expires_at now) (recover_one now)
unfolding recover_one
recover-IsUpdate now = record {
  same_id = λ r. ground arith;
  same_task = λ r. ground arith;
  was_active = λ r h. ground (arith, active-of-held r.status);
}

finish-IsUpdate :
    (redact : Text → Text) (id : ℕ) (http_status : Option ℕ) (error : Option Text) (now : ℕ)
    → IsUpdate (λ r. r.id == id && is_held r.status) (finish_one redact http_status error now)
unfolding finish_one
finish-IsUpdate redact id http_status error now = record {
  same_id = λ r. refl;
  same_task = λ r. refl;
  was_active = λ r h. ground (arith, active-of-held r.status);
}

claim_row-Change :
    (worker : Text) (expires now : ℕ) (b : Option Run) (q : Queue)
    → Change q (claim_row worker expires now b q).1
unfolding claim_row
claim_row-Change worker expires now none q = same
claim_row-Change worker expires now (some b) q =
    let test = λ (r : Run). r.id == b.id && is_free now r in
    elim (Bool-cases (changed test q.runs == 0)) [
      | inl e ↦ rw e same
      | inr e ↦ rw e (updates test (lease worker expires) (lease-IsUpdate b.id now worker expires))
    ]

module _ (priority : ℕ → ℤ) (redact : Text → Text) where
  pub step-Change : (now : ℕ) (op : Op) (q : Queue) → Change q (step priority redact now op q)
  unfolding step enqueue_run_with_trigger enqueue_delayed_run schedule_retry claim_run
      start_leased_run renew_run cancel_run recover_expired_runs finish_run update_rows
  step-Change now (enqueues task trigger) q = insert-Change task now none none trigger q
  step-Change now (enqueues_delayed task delay) q = insert-Change task now _ none _ q
  step-Change now (retries task original delay) q = insert-Change task now _ _ _ q
  step-Change now (claims worker seconds) q = claim_row-Change worker _ now _ q
  step-Change now (starts id worker) q = updates _ _ (start-IsUpdate id now worker)
  step-Change now (renews id worker seconds) q = updates _ _ (renew-IsUpdate id _ worker)
  step-Change now (cancels id) q = updates _ _ (cancel-IsUpdate id now)
  step-Change now recovers q = updates _ _ (recover-IsUpdate now)
  step-Change now (finishes id http_status error) q =
      updates _ _ (finish-IsUpdate redact id http_status error now)
