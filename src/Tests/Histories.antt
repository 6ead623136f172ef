-- ===== src/Tests/Histories.antt =====
-- The table of three runs, of which the first has ended, with a step and two deliveries.
use qdrust.Base.{ℕ, codes, none, some, [], ◌∷◌, not, keep_if, ◌≡◌, refl}
use qdrust.Runs.{new_run}
use qdrust.Notices.{Delivery, event_success}
use qdrust.History.{History, prune_run_logs, count_old_runs, is_old}
use qdrust.History.Pruned.{prune_run_logs-Swept}
use qdrust.History.Whole.{
  of_run, of_owner, of_task, prunes, delete_all, IsWhole, IsGood, delete_all-IsGood,
}
use qdrust.Tests.Queues.{queue, queue-IsSound}

abbrev told_of : ℕ → ℕ → Delivery
told_of run_id task_id = record {
  run_id = run_id;
  task_id = task_id;
  action_id = 4;
  channel_id = 1;
  channel_kind = codes "webhook";
  event = event_success;
  attempt = 1;
  error = none;
}

abbrev history : History
history = record {
  queue = queue;
  logs = (1, codes "done") ∷ [];
  traces = [];
  steps =
      record {
        run_id = 1;
        step_index = 0;
        name = codes "GET";
        status = codes "succeeded";
        http_status = some 200;
        error = none;
      }
      ∷ [];
  deliveries = told_of 1 7 ∷ told_of 3 8 ∷ [];
  owners = (7, 1) ∷ (8, 2) ∷ [];
}

history-IsWhole : IsWhole history
unfolding IsWhole new_run
history-IsWhole = ((refl, tt), (refl, (refl, tt)))

delete_all-IsGood_example :
    IsGood (delete_all (prunes 13 ∷ of_owner 2 ∷ of_run 2 ∷ of_task 7 ∷ []) history)
delete_all-IsGood_example =
    delete_all-IsGood (prunes 13 ∷ of_owner 2 ∷ of_run 2 ∷ of_task 7 ∷ []) history
      (queue-IsSound, history-IsWhole)

prune_run_logs-Swept_example :
    (after : History) × (prune_run_logs 13 history ≡ some (count_old_runs 13 history, after))
    × (after.queue.runs ≡ keep_if (λ r. not (is_old 13 r)) history.queue.runs)
prune_run_logs-Swept_example = prune_run_logs-Swept 13 history queue-IsSound.distinct

one_old : count_old_runs 13 history ≡ 1
unfolding count_old_runs new_run
one_old = refl
