-- ===== src/Notices/Send/Failures.antt =====
-- What `count_recent_failures` of store.rs counts.
use Prim.Native.Nat.{max}
use qdrust.Base.{ℕ, ◌≤◌, leb, ◌&&◌, keep_if, All, List, [], ◌∷◌, ◌≡◌, inl, inr, refl, arith}
use qdrust.Base.Counting.{
  Counts, length-keep_if-Counts, Decides, iff-Decides, and-Decides, eq-Decides, leb-Decides,
}
use qdrust.Runs.{
  Status, failed, succeeded, Run, Queue, is_failed, is_succeeded, is_task_row, latest_created,
  count_recent_failures,
}

-- A failure of the task with no later success.
pub record IsRecentFailure (task_id : ℕ) (runs : List Run) (r : Run) : Type 0 where
  pub task : r.task_id ≡ task_id
  pub failure : r.status ≡ failed
  pub unbroken :
      All (λ s. (s.task_id ≡ task_id) × (s.status ≡ succeeded) → s.created_at ≤ r.created_at) runs

is_failed-Decides : (s : Status) → Decides (is_failed s) (s ≡ failed)
unfolding is_failed
is_failed-Decides Status.failed = inl (refl, refl)
is_failed-Decides Status.pending = inr (refl, λ e. cc)
is_failed-Decides Status.leased = inr (refl, λ e. cc)
is_failed-Decides Status.running = inr (refl, λ e. cc)
is_failed-Decides Status.succeeded = inr (refl, λ e. cc)
is_failed-Decides Status.cancelled = inr (refl, λ e. cc)

is_succeeded-Decides : (s : Status) → Decides (is_succeeded s) (s ≡ succeeded)
unfolding is_succeeded
is_succeeded-Decides Status.succeeded = inl (refl, refl)
is_succeeded-Decides Status.pending = inr (refl, λ e. cc)
is_succeeded-Decides Status.leased = inr (refl, λ e. cc)
is_succeeded-Decides Status.running = inr (refl, λ e. cc)
is_succeeded-Decides Status.failed = inr (refl, λ e. cc)
is_succeeded-Decides Status.cancelled = inr (refl, λ e. cc)

leb-max : (a b n : ℕ) → leb (max a b) n ≡ leb a n && leb b n
leb-max a b n = ground arith

-- No success of the task is later than the time.
NoLater : ℕ → ℕ → List Run → Type 0
NoLater task_id n runs =
    All (λ s. (s.task_id ≡ task_id) × (s.status ≡ succeeded) → s.created_at ≤ n) runs

latest-Decides :
    (task_id n : ℕ) (runs : List Run)
    → Decides
        (leb (latest_created (keep_if (is_task_row is_succeeded task_id) runs)) n)
        (NoLater task_id n runs)
unfolding latest_created NoLater
latest-Decides task_id n [] = inl (ground arith, tt)
latest-Decides task_id n (r ∷ runs) = elim (success-Decides r) [
  | inl (e, p) ↦
      rw (e, leb-max)
        (iff-Decides (λ h. ((λ _. h.0), h.1)) (λ h. (h.0 p, h.1))
          (and-Decides (leb-Decides r.created_at n) (latest-Decides task_id n runs)))
  | inr (e, m) ↦
      rw e (iff-Decides (λ h. ((λ p. absurd (m p)), h)) (λ h. h.1) (latest-Decides task_id n runs))
]
  where
    success-Decides :
        (r : Run)
        → Decides
            (is_task_row is_succeeded task_id r)
            ((r.task_id ≡ task_id) × (r.status ≡ succeeded))
    success-Decides r =
        unfold is_task_row in
        and-Decides (eq-Decides r.task_id task_id) (is_succeeded-Decides r.status)

pub recent-Counts :
    (task_id : ℕ) (q : Queue)
    → Counts (IsRecentFailure task_id q.runs) q.runs (count_recent_failures task_id q)
unfolding count_recent_failures is_task_row NoLater
recent-Counts task_id q =
    length-keep_if-Counts (IsRecentFailure task_id q.runs) _
      (λ r.
        iff-Decides (λ h. record { task = h.0.0; failure = h.0.1; unbroken = h.1 })
          (λ f. ((f.task, f.failure), f.unbroken))
          (and-Decides (and-Decides (eq-Decides r.task_id task_id) (is_failed-Decides r.status))
            (latest-Decides task_id r.created_at q.runs)))
      q.runs
