-- ===== src/History/Whole.antt =====
-- What every deletion of runs keeps: a sound table, and steps and deliveries of runs that are there.
use qdrust.Base.{
  ℕ, ◌≤◌, ◌<◌, ◌==◌, ==→eq, Bool, true, false, not, ◌&&◌, any, keep_if, List, [], ◌∷◌, All, ◌≡◌,
  ◌≢◌, refl, ap, arith, inl, inr, Bool-cases,
}
use qdrust.Runs.{Run, Queue}
use qdrust.Runs.Invariant.{IsSound, active_count, Distinct}
use qdrust.Notices.{Delivery}
use qdrust.History.{
  History, RunStep, is_run, names_run, is_of_task, owns, has, old_ids, delete_ids, remove_runs,
  remove_rows, delete_run, delete_runs_for_owner, delete_all_runs, delete_runs_for_task, batch,
}

-- A deletion. `prunes` is one batch of the sweep.
pub data Deletion : Type 0 where
  of_run : ℕ → Deletion
  of_owner : ℕ → Deletion
  of_task : ℕ → Deletion
  of_all : Deletion
  prunes : ℕ → Deletion

pub delete_all : List Deletion → History → History
delete_all [] h = h
delete_all (of_run id ∷ ds) h = delete_all ds (delete_run id h).1
delete_all (of_owner owner ∷ ds) h = delete_all ds (delete_runs_for_owner owner h).1
delete_all (of_task task_id ∷ ds) h = delete_all ds (delete_runs_for_task task_id h).1
delete_all (of_all ∷ ds) h = delete_all ds (delete_all_runs h).1
delete_all (prunes before ∷ ds) h = delete_all ds (delete_ids (old_ids batch before h.queue.runs) h)

is_run_of : Delivery → Run → Bool
is_run_of d r = r.id == d.run_id && r.task_id == d.task_id

-- A step names a run that is there, and a delivery such a run and its task.
unfoldable pub IsWhole : History → Type 0
unfolding is_run_of is_run
IsWhole h =
    All (λ (s : RunStep). any (is_run s.run_id) h.queue.runs ≡ true) h.steps
    × All (λ d. any (is_run_of d) h.queue.runs ≡ true) h.deliveries

-- Rows that a test takes leave the table sound.
module _ (test : Run → Bool) where
  kept : List Run → List Run
  kept rs = keep_if (λ r. not (test r)) rs

  active_count-kept :
      (task : ℕ) (rs : List Run) → active_count task (kept rs) ≤ active_count task rs
  unfolding active_count kept
  active_count-kept task [] = omega arith
  active_count-kept task (r ∷ rs) = elim (Bool-cases (test r)) [
    | inl e ↦ rw e (ground (arith, active_count-kept task rs))
    | inr e ↦ rw e (ground (arith, active_count-kept task rs))
  ]

  All-kept : (P : Run → Type 0) (rs : List Run) → All P rs → All P (kept rs)
  unfolding kept
  All-kept P [] h = tt
  All-kept P (r ∷ rs) (p, h) = elim (Bool-cases (test r)) [
    | inl e ↦ rw e (All-kept P rs h)
    | inr e ↦ rw e (p, All-kept P rs h)
  ]

  Distinct-kept : (rs : List Run) → Distinct rs → Distinct (kept rs)
  unfolding kept
  Distinct-kept [] h = tt
  Distinct-kept (r ∷ rs) (p, h) = elim (Bool-cases (test r)) [
    | inl e ↦ rw e (Distinct-kept rs h)
    | inr e ↦ rw e (All-kept (λ q. q.id ≢ r.id) rs p, Distinct-kept rs h)
  ]

  kept-IsSound : (q : Queue) → IsSound q → IsSound (record q { runs = kept q.runs })
  kept-IsSound q v = record {
    single = λ task. omega (arith, active_count-kept task q.runs, v.single task);
    fresh = All-kept (λ r. r.id < q.next_id) q.runs v.fresh;
    distinct = Distinct-kept q.runs v.distinct;
  }

  -- A run that is looked for is still there where none such was taken.
  any-kept :
      (p : Run → Bool) (rs : List Run)
      → any p rs ≡ true
      → any (λ r. p r && test r) rs ≡ false
      → any p (kept rs) ≡ true
  unfolding kept
  any-kept p [] h f = h
  any-kept p (r ∷ rs) h f = elim (Bool-cases (test r)) [
    | inl e ↦ rw e (ground (arith, any-kept p rs, h, f, e))
    | inr e ↦ rw e (ground (arith, any-kept p rs, h, f, e))
  ]

any-false : (p : Run → Bool) (rs : List Run) → ((r : Run) → p r ≡ false) → any p rs ≡ false
any-false p [] h = refl
any-false p (r ∷ rs) h = rw (h r) (any-false p rs h)

any-under :
    (p q : Run → Bool) (rs : List Run)
    → ((r : Run) → p r ≡ true → q r ≡ true)
    → any q rs ≡ false
    → any p rs ≡ false
any-under p q [] h f = refl
any-under p q (r ∷ rs) h f = ground (arith, h r, any-under p q rs h, f)

All-gone :
    {A : Type 0} (P Q : A → Type 0) (gone : A → Bool) (xs : List A)
    → ((x : A) → gone x ≡ false → P x → Q x)
    → All P xs
    → All Q (keep_if (λ x. not (gone x)) xs)
All-gone P Q gone [] f h = tt
All-gone P Q gone (x ∷ xs) f (p, h) = elim (Bool-cases (gone x)) [
  | inl e ↦ rw e (All-gone P Q gone xs f h)
  | inr e ↦ rw e (f x e p, All-gone P Q gone xs f h)
]

-- Rows that name a run go with it where the tests on them take what names a run that goes.
removed-IsWhole :
    (test : Run → Bool) (step_of : ℕ → Bool) (delivery_of : Delivery → Bool) (h : History)
    → ((id : ℕ) → step_of id ≡ false → any (λ r. is_run id r && test r) h.queue.runs ≡ false)
    → ((d : Delivery)
        → delivery_of d ≡ false
        → any (λ r. is_run_of d r && test r) h.queue.runs ≡ false)
    → IsWhole h
    → IsWhole (remove_runs test (remove_rows step_of delivery_of h)).1
unfolding IsWhole remove_runs remove_rows kept
removed-IsWhole test step_of delivery_of h f g (steps, deliveries) = (
  All-gone _ _ (λ (s : RunStep). step_of s.run_id) h.steps
      (λ s e p. any-kept test (is_run s.run_id) h.queue.runs p (f s.run_id e)) steps,
  All-gone _ _ delivery_of h.deliveries
      (λ d e p. any-kept test (is_run_of d) h.queue.runs p (g d e)) deliveries,
)

removed-IsSound :
    (test : Run → Bool) (step_of : ℕ → Bool) (delivery_of : Delivery → Bool) (h : History)
    → IsSound h.queue
    → IsSound (remove_runs test (remove_rows step_of delivery_of h)).1.queue
unfolding remove_runs remove_rows kept
removed-IsSound test step_of delivery_of h v = kept-IsSound test h.queue v

-- What a history has to be: a sound table, and rows that name runs of it.
abbrev pub IsGood : History → Type 0
IsGood h = IsSound h.queue × IsWhole h

removed-IsGood :
    (test : Run → Bool) (step_of : ℕ → Bool) (delivery_of : Delivery → Bool) (h : History)
    → ((id : ℕ) → step_of id ≡ false → any (λ r. is_run id r && test r) h.queue.runs ≡ false)
    → ((d : Delivery)
        → delivery_of d ≡ false
        → any (λ r. is_run_of d r && test r) h.queue.runs ≡ false)
    → IsGood h
    → IsGood (remove_runs test (remove_rows step_of delivery_of h)).1
removed-IsGood test step_of delivery_of h f g (v, w) =
    (removed-IsSound test step_of delivery_of h v, removed-IsWhole test step_of delivery_of h f g w)

run-IsGood : (id : ℕ) (h : History) → IsGood h → IsGood (delete_run id h).1
unfolding delete_run is_run is_run_of
run-IsGood id h good =
    removed-IsGood (is_run id) (λ n. n == id) (λ (d : Delivery). d.run_id == id) h
      (λ n e. any-false _ h.queue.runs (λ r. ground (arith, e)))
      (λ d e. any-false _ h.queue.runs (λ r. ground (arith, e))) good

owner-IsGood : (owner : ℕ) (h : History) → IsGood h → IsGood (delete_runs_for_owner owner h).1
unfolding delete_runs_for_owner names_run is_run is_run_of
owner-IsGood owner h good =
    removed-IsGood (owns h.owners owner) (names_run (owns h.owners owner) h.queue.runs)
      (λ (d : Delivery). names_run (owns h.owners owner) h.queue.runs d.run_id) h (λ n e. e)
      (λ d e. any-under _ _ h.queue.runs (λ r f. ground (arith, f)) e) good

task-IsGood : (task_id : ℕ) (h : History) → IsGood h → IsGood (delete_runs_for_task task_id h).1
unfolding delete_runs_for_task names_run is_of_task is_run is_run_of
task-IsGood task_id h good =
    removed-IsGood (is_of_task task_id) (names_run (is_of_task task_id) h.queue.runs)
      (λ (d : Delivery). d.task_id == task_id) h (λ n e. e)
      (λ d e. any-false _ h.queue.runs (λ r. ground (arith, e))) good

all-IsGood : (h : History) → IsGood h → IsGood (delete_all_runs h).1
unfolding delete_all_runs
all-IsGood h good =
    removed-IsGood (λ r. true) (λ n. true) (λ d. true) h (λ n e. cc) (λ d e. cc) good

not_both : (ids : List ℕ) (m n : ℕ) → has ids n ≡ false → m == n && has ids m ≡ false
not_both ids m n e = elim (Bool-cases (m == n)) [
  | inl f ↦ rw (f, ap (has ids) (==→eq m n f), e) refl
  | inr f ↦ rw f refl
]

ids-IsGood : (ids : List ℕ) (h : History) → IsGood h → IsGood (delete_ids ids h)
unfolding delete_ids is_run is_run_of
ids-IsGood ids h good =
    removed-IsGood (λ r. has ids r.id) (has ids) (λ (d : Delivery). has ids d.run_id) h
      (λ n e. any-false _ h.queue.runs (λ r. not_both ids r.id n e))
      (λ d e. any-false _ h.queue.runs (λ r. ground (arith, not_both ids r.id d.run_id e))) good

-- Over any sequence of deletions, of a run, of an owner's, of a task's, of all and of batches of
-- old ones, a run table stays sound, and its steps and deliveries name runs that are still there.
pub delete_all-IsGood : (ds : List Deletion) (h : History) → IsGood h → IsGood (delete_all ds h)
unfolding delete_all
delete_all-IsGood [] h good = good
delete_all-IsGood (of_run id ∷ ds) h good = delete_all-IsGood ds _ (run-IsGood id h good)
delete_all-IsGood (of_owner owner ∷ ds) h good = delete_all-IsGood ds _ (owner-IsGood owner h good)
delete_all-IsGood (of_task task_id ∷ ds) h good =
    delete_all-IsGood ds _ (task-IsGood task_id h good)
delete_all-IsGood (of_all ∷ ds) h good = delete_all-IsGood ds _ (all-IsGood h good)
delete_all-IsGood (prunes before ∷ ds) h good =
    delete_all-IsGood ds _ (ids-IsGood (old_ids batch before h.queue.runs) h good)
