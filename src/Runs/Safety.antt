-- ===== src/Runs/Safety.antt =====
-- What the run queue of store.rs promises over any sequence of its calls.
use qdrust.Base.{
  ℕ, suc, ◌≤◌, ◌<◌, Text, false, some, List, [], ◌∷◌, ◌++◌, All, ◌≡◌, ◌≢◌, refl, sym, subst, arith,
}
use qdrust.Base.Int.{ℤ}
use qdrust.Runs.{Run, Queue, is_active, has_active, find}
use qdrust.Runs.Invariant.{Op, play, active_count, Distinct, IsSound, update-IsSound, find-update}
use qdrust.Runs.Invariant.Step.{Change, same, updates, inserts, step-Change}

active_count-append :
    (task : ℕ) (rs : List Run) (r : Run)
    → active_count task (rs ++ r ∷ []) ≤ suc (active_count task rs)
unfolding active_count
active_count-append task [] r = ground arith
active_count-append task (x ∷ rs) r = ground (arith, active_count-append task rs r)

pub active_count-other :
    (task : ℕ) (rs : List Run) (r : Run)
    → r.task_id ≢ task
    → active_count task (rs ++ r ∷ []) ≡ active_count task rs
unfolding active_count
active_count-other task [] r h = ground arith
active_count-other task (x ∷ rs) r h = ground (arith, active_count-other task rs r h)

active_count-none :
    (task : ℕ) (rs : List Run) → has_active task rs ≡ false → active_count task rs ≡ 0
unfolding active_count has_active
active_count-none task [] h = refl
active_count-none task (x ∷ rs) h = ground (arith, active_count-none task rs)

All-lt-suc : (n : ℕ) (rs : List Run) → All (λ r. r.id < n) rs → All (λ r. r.id < suc n) rs
All-lt-suc n [] h = tt
All-lt-suc n (x ∷ rs) (p, h) = (omega (arith, p), All-lt-suc n rs h)

All-append : (P : Run → Type 0) (rs : List Run) (r : Run) → All P rs → P r → All P (rs ++ r ∷ [])
All-append P [] r h p = (p, tt)
All-append P (x ∷ rs) r (q, h) p = (q, All-append P rs r h p)

Distinct-append :
    (rs : List Run) (r : Run) → All (λ q. q.id < r.id) rs → Distinct rs → Distinct (rs ++ r ∷ [])
Distinct-append [] r h d = (tt, tt)
Distinct-append (x ∷ rs) r (p, h) (n, d) =
    (All-append (λ q. q.id ≢ x.id) rs r n (λ e. omega (arith, p, e)), Distinct-append rs r h d)

pub find-append :
    (id : ℕ) (rs : List Run) (x : Run) {r : Run}
    → find id rs ≡ some r
    → find id (rs ++ x ∷ []) ≡ some r
unfolding find
find-append id [] x h = cc
find-append id (y ∷ rs) x {r} h = ground (arith, find-append id rs x {r = r}, h)

pub Change-IsSound : (q p : Queue) → Change q p → IsSound q → IsSound p
Change-IsSound q p same v = v
Change-IsSound q p (updates test change u) v = update-IsSound u q v
Change-IsSound q p (inserts task r h t i) v = record {
  single = λ other. ground (
    arith,
    active_count-append other q.runs r,
    active_count-other other q.runs r,
    active_count-none task q.runs h,
    t,
    v.single other,
  );
  fresh =
      All-append (λ x. x.id < suc q.next_id) q.runs r (All-lt-suc q.next_id q.runs v.fresh)
        (omega (arith, i));
  distinct =
      Distinct-append q.runs r (subst (λ n. All (λ x. x.id < n) q.runs) (sym i) v.fresh) v.distinct;
}

Change-find :
    (id : ℕ) (q p : Queue) {r : Run}
    → Change q p
    → find id q.runs ≡ some r
    → is_active r.status ≡ false
    → find id p.runs ≡ some r
Change-find id q p same h f = h
Change-find id q p (updates test change u) h f = find-update u id q.runs h f
Change-find id q p (inserts task x _ _ _) h f = find-append id q.runs x h

module _ (priority : ℕ → ℤ) (redact : Text → Text) where
  -- A run table with distinct ids below the next one, and with at most one pending, leased or
  -- running row for each task, is such a table again after any sequence of the calls that enqueue,
  -- retry, claim, start, renew, cancel, recover and finish runs, at any times.
  pub play-IsSound :
      (ops : List (ℕ × Op)) (q : Queue) → IsSound q → IsSound (play priority redact ops q)
  unfolding play
  play-IsSound [] q v = v
  play-IsSound ((now, op) ∷ ops) q v =
      play-IsSound ops _ (Change-IsSound q _ (step-Change priority redact now op q) v)

  -- A row that is not pending, leased or running is found unchanged after any sequence of those
  -- calls: a run that has ended keeps its outcome.
  pub find-play :
      (ops : List (ℕ × Op)) (id : ℕ) (q : Queue) {r : Run}
      → find id q.runs ≡ some r
      → is_active r.status ≡ false
      → find id (play priority redact ops q).runs ≡ some r
  unfolding play
  find-play [] id q h f = h
  find-play ((now, op) ∷ ops) id q h f =
      find-play ops id _ (Change-find id q _ (step-Change priority redact now op q) h f) f
