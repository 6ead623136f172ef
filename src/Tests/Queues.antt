-- ===== src/Tests/Queues.antt =====
-- A run table under the calls of two workers.
use qdrust.Base.{ℕ, ◌≤◌, codes, Text, false, none, some, List, [], ◌∷◌, ◌≡◌, ◌≢◌, refl, arith, ◌⊎◌}
use qdrust.Base.Int.{ℤ, pos, less, at_least}
use qdrust.Runs.{
  Run, Queue, Status, succeeded, is_active, find, new_run, claim_run, first_row, is_claimable,
  is_pending, is_held, changed, comes_before, update_where,
}
use qdrust.Runs.Invariant.{
  Op, enqueues, claims, starts, cancels, recovers, finishes, play, active_count, IsSound,
}
use qdrust.Runs.Safety.{play-IsSound, find-play}
use qdrust.Runs.Leases.{Nothing, Takes, claim_run-cases, claim_run-exclusive}

abbrev priority : ℕ → ℤ
priority task = pos task

abbrev redact : Text → Text
redact t = t

-- A run of task 7 that has ended, and two that wait, of the tasks 7 and 8.
abbrev pub rows : List Run
rows =
    record (new_run 1 7 10 none none (codes "manual")) { status = succeeded; finished_at = some 12 }
    ∷ new_run 2 7 20 none none (codes "manual")
    ∷ new_run 3 8 21 none none (codes "scheduled")
    ∷ []

abbrev pub queue : Queue
queue = record { runs = rows; next_id = 4 }

queue_single : (task : ℕ) → active_count task rows ≤ 1
unfolding active_count is_active new_run
queue_single task = ground arith

pub queue-IsSound : IsSound queue
unfolding new_run
queue-IsSound = record {
  single = queue_single;
  fresh = (omega arith, (omega arith, (omega arith, tt)));
  distinct = (
    (λ e. omega (arith, e), (λ e. omega (arith, e), tt)),
    ((λ e. omega (arith, e), tt), (tt, tt)),
  );
}

abbrev calls : List (ℕ × Op)
calls =
    (30, enqueues 7 (codes "manual"))
    ∷ (31, claims (codes "a") (pos 60))
    ∷ (32, starts 3 (codes "a"))
    ∷ (33, cancels 3)
    ∷ (100, recovers)
    ∷ (101, claims (codes "b") (pos 60))
    ∷ (102, finishes 2 (some 200) none)
    ∷ (103, enqueues 8 (codes "scheduled"))
    ∷ []

play-IsSound_example : IsSound (play priority redact calls queue)
play-IsSound_example = play-IsSound priority redact calls queue queue-IsSound

ended : Run
ended = record (new_run 1 7 10 none none (codes "manual")) {
  status = succeeded;
  finished_at = some 12;
}

ended-found : find 1 queue.runs ≡ some ended
unfolding find new_run ended
ended-found = refl

ended-idle : is_active ended.status ≡ false
unfolding is_active ended
ended-idle = refl

find-play_example : find 1 (play priority redact calls queue).runs ≡ some ended
find-play_example = find-play priority redact calls 1 queue ended-found ended-idle

claim_run-cases_example :
    Nothing priority
      (codes "a")
      (pos 60)
      31
      queue
      (claim_run priority (codes "a") (pos 60) 31 queue)
    ⊎ Takes priority
        (codes "a")
        (pos 60)
        31
        queue
        (claim_run priority (codes "a") (pos 60) 31 queue)
claim_run-cases_example =
    claim_run-cases priority (codes "a") (pos 60) 31 queue queue-IsSound.distinct

abbrev first : Queue
first = (claim_run priority (codes "a") (pos 60) 31 queue).1

abbrev second : Queue
second = (claim_run priority (codes "b") (pos 60) 40 first).1

run_a : Run
run_a = record (new_run 3 8 21 none none (codes "scheduled")) {
  status = Status.leased;
  lease_owner = some (codes "a");
  lease_expires_at = some 91;
  attempt = 1;
}

run_b : Run
run_b = record (new_run 2 7 20 none none (codes "manual")) {
  status = Status.leased;
  lease_owner = some (codes "b");
  lease_expires_at = some 100;
  attempt = 1;
}

claim_a : claim_run priority (codes "a") (pos 60) 31 queue ≡ (some run_a, first)
unfolding claim_run run_a new_run first_row is_claimable is_pending is_held changed comes_before
    less find update_where at_least
claim_a = refl

claim_b : claim_run priority (codes "b") (pos 60) 40 first ≡ (some run_b, second)
unfolding claim_run run_b new_run first_row is_claimable is_pending is_held changed comes_before
    less find update_where at_least
claim_b = refl

claim_run-exclusive_example : run_b.id ≢ run_a.id
unfolding at_least
claim_run-exclusive_example =
    claim_run-exclusive priority (codes "a") (codes "b") (pos 60) (pos 60) 31 40 queue first second
      queue-IsSound claim_a (omega arith) claim_b
