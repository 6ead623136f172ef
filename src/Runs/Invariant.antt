-- ===== src/Runs/Invariant.antt =====
-- What every statement of the run queue of store.rs keeps.
pub mod Step
use qdrust.Base.{
  ℕ, zero, suc, ◌+◌, ◌≤◌, ◌<◌, ◌==◌, ==→eq, Text, Bool, true, false, ◌&&◌, any, Option, none, some,
  List, [], ◌∷◌, ◌++◌, All, ◌≡◌, ◌≢◌, refl, sym, ap, subst, ◌∙◌, arith, Bool-cases, Option-cases,
  inl, inr, if◌then◌else◌,
}
use qdrust.Base.Int.{ℤ, at_least}
use qdrust.Runs.{
  Status, Run, Queue, is_active, is_held, is_leased, is_pending, has_active, find, update_where,
  insert_guarded, new_run, enqueue_run_with_trigger, enqueue_delayed_run, schedule_retry, claim_run,
  claim_row, first_row, is_claimable, is_free, lease, start_leased_run, renew_run, cancel_run,
  cancel_one, recover_expired_runs, recover_one, finish_run, finish_one, changed, update_rows,
}

-- The calls that write the queue. `start_run`, which only tests make, and the deletion of runs
-- are not among them.
pub data Op : Type 0 where
  enqueues : ℕ → Text → Op
  enqueues_delayed : ℕ → ℤ → Op
  retries : ℕ → ℕ → ℤ → Op
  claims : Text → ℤ → Op
  starts : ℕ → Text → Op
  renews : ℕ → Text → ℤ → Op
  cancels : ℕ → Op
  recovers : Op
  finishes : ℕ → Option ℕ → Option Text → Op

module _ (priority : ℕ → ℤ) (redact : Text → Text) where
  unfoldable pub step : ℕ → Op → Queue → Queue
  step now (enqueues task trigger) q = (enqueue_run_with_trigger task trigger now q).1
  step now (enqueues_delayed task delay) q = (enqueue_delayed_run task delay now q).1
  step now (retries task original delay) q = (schedule_retry task original delay now q).1
  step now (claims worker seconds) q = (claim_run priority worker seconds now q).1
  step now (starts id worker) q = (start_leased_run id worker now q).1
  step now (renews id worker seconds) q = (renew_run id worker seconds now q).1
  step now (cancels id) q = (cancel_run id now q).1
  step now recovers q = recover_expired_runs now q
  step now (finishes id http_status error) q = finish_run redact id http_status error now q

  unfoldable pub play : List (ℕ × Op) → Queue → Queue
  unfolding step
  play [] q = q
  play ((now, op) ∷ ops) q = play ops (step now op q)

unfoldable pub active_count : ℕ → List Run → ℕ
active_count task [] = 0
active_count task (r ∷ rs) =
    let rest = active_count task rs in
    if r.task_id == task && is_active r.status then suc rest else rest

abbrev pub Distinct : List Run → Type 0
Distinct [] = Unit
Distinct (r ∷ rs) = All (λ q. q.id ≢ r.id) rs × Distinct rs

pub record IsSound (q : Queue) : Type 0 where
  pub single : (task : ℕ) → active_count task q.runs ≤ 1
  pub fresh : All (λ r. r.id < q.next_id) q.runs
  pub distinct : Distinct q.runs

-- An update that moves no row to another task or id, and touches active rows only.
pub record IsUpdate (test : Run → Bool) (change : Run → Run) : Type 0 where
  pub same_id : (r : Run) → (change r).id ≡ r.id
  pub same_task : (r : Run) → (change r).task_id ≡ r.task_id
  pub was_active : (r : Run) → test r ≡ true → is_active r.status ≡ true

module _ {test : Run → Bool} {change : Run → Run} (u : IsUpdate test change) where
  active_count-update :
      (task : ℕ) (rs : List Run)
      → active_count task (update_where test change rs) ≤ active_count task rs
  unfolding active_count update_where
  active_count-update task [] = omega arith
  active_count-update task (r ∷ rs) =
      ground (arith, active_count-update task rs, u.same_task r, u.was_active r)

  All-update :
      (P : ℕ → Type 0) (rs : List Run)
      → All (λ r. P r.id) rs
      → All (λ r. P r.id) (update_where test change rs)
  unfolding update_where
  All-update P [] h = tt
  All-update P (r ∷ rs) (p, h) = elim (Bool-cases (test r)) [
    | inl e ↦ (rw e (subst P (sym (u.same_id r)) p), All-update P rs h)
    | inr e ↦ (rw e p, All-update P rs h)
  ]

  Distinct-update : (rs : List Run) → Distinct rs → Distinct (update_where test change rs)
  unfolding update_where
  Distinct-update [] h = tt
  Distinct-update (r ∷ rs) (p, h) = elim (Bool-cases (test r)) [
    | inl e ↦ (rw (e, u.same_id r) (All-update (λ i. i ≢ r.id) rs p), Distinct-update rs h)
    | inr e ↦ (rw e (All-update (λ i. i ≢ r.id) rs p), Distinct-update rs h)
  ]

  pub update-IsSound :
      (q : Queue) → IsSound q → IsSound (record q { runs = update_where test change q.runs })
  update-IsSound q v = record {
    single = λ task. omega (arith, active_count-update task q.runs, v.single task);
    fresh = All-update (λ i. i < q.next_id) q.runs v.fresh;
    distinct = Distinct-update q.runs v.distinct;
  }

  -- A row that is not active stays as it is.
  pub find-update :
      (id : ℕ) (rs : List Run) {r : Run}
      → find id rs ≡ some r
      → is_active r.status ≡ false
      → find id (update_where test change rs) ≡ some r
  unfolding find update_where
  find-update id [] h f = cc
  find-update id (x ∷ rs) {r} h f =
      ground (arith, find-update id rs {r = r}, u.same_id x, u.was_active x, h, f)
