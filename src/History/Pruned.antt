-- ===== src/History/Pruned.antt =====
-- The sweep of old runs in batches, against one that takes them all at once.
mod Rows
use qdrust.Base.{
  ℕ, zero, suc, ◌+◌, ◌≤◌, ◌<◌, ◌==◌, ltb, ltb→lt, Bool, true, false, not, ◌&&◌, ◌||◌, any, keep_if,
  is_empty, Option, none, some, List, [], ◌∷◌, map, length, take, All, if◌then◌else◌, ◌≡◌, ◌≢◌,
  refl, sym, ap, ◌∙◌, subst, arith, inl, inr, Bool-cases, ==→eq,
}
use qdrust.Runs.{Run, Queue}
use qdrust.Runs.Invariant.{Distinct}
use qdrust.History.{
  History, is_old, has, batch, old_ids, delete_ids, remove_runs, remove_rows, more_than, prune_loop,
  prune_run_logs, count_old_runs,
}
use qdrust.History.Pruned.Rows.{
  without, keep_all, young, olds, drop_old, young-drop_old, length-olds-drop_old, length-drop_old,
  drop_old-all, Distinct-drop_old, deleted-drop_old, length-old_ids,
}

module _ (before : ℕ) where
  olds-young : (rs : List Run) → olds before (young before rs) ≡ []
  unfolding olds young
  olds-young [] = refl
  olds-young (r ∷ rs) = elim (Bool-cases (is_old before r)) [
    | inl e ↦ rw e (olds-young rs)
    | inr e ↦ rw (e, e) (olds-young rs)
  ]

  left :
      (h : History)
      → Distinct h.queue.runs
      → (delete_ids (old_ids batch before h.queue.runs) h).queue.runs
        ≡ drop_old before batch h.queue.runs
  unfolding delete_ids remove_runs remove_rows without
  left h d = deleted-drop_old before batch h.queue.runs d

  -- A batch that is not full is the last.
  last_batch :
      (rs : List Run)
      → length (old_ids batch before rs) < batch
      → (drop_old before batch rs ≡ young before rs)
        × (length (old_ids batch before rs) ≡ length (olds before rs))
  last_batch rs h =
      let size = length-old_ids before batch rs in
      let none_left = drop_old-all before batch rs (omega (arith, h, size)) in
      let total = rw (none_left, olds-young rs) at (length-olds-drop_old before batch rs) in
      (none_left, omega (arith, size, total))

  is_empty-eq : (ids : List ℕ) → is_empty ids ≡ true → ids ≡ []
  is_empty-eq [] h = refl
  is_empty-eq (i ∷ ids) h = cc

  -- What the sweep has to leave and to tell.
  Swept : History → Option (ℕ × History) → Type 0
  Swept h result =
      (after : History) × (result ≡ some (count_old_runs before h, after))
      × (after.queue.runs ≡ young before h.queue.runs)

  loop-Swept :
      (fuel : ℕ) (h : History)
      → Distinct h.queue.runs
      → length h.queue.runs < fuel
      → Swept h (prune_loop fuel before h)
  unfolding Swept prune_loop count_old_runs more_than olds
  loop-Swept zero h d enough = absurd (omega (arith, enough))
  loop-Swept (suc fuel) h d enough =
      let rs = h.queue.runs in
      let ids = old_ids batch before rs in
      let size = length-old_ids before batch rs in
      elim (Bool-cases (is_empty ids)) [
        | inl e ↦
            (let nothing = is_empty-eq ids e in
              let short : length ids < batch = rw nothing (omega arith) in
              let (all_young, total) = last_batch rs short in
              let same : rs ≡ young before rs =
                sym (keep_all rs)
                ∙ rw nothing at (deleted-drop_old before batch rs d)
                ∙ all_young in
              let count : 0 ≡ length (olds before rs) = rw nothing at total in
              (h, rw e (ap (λ n. some (n, h)) count), same))
        | inr e ↦ elim (Bool-cases (ltb (length ids) batch)) [
          | inl f ↦
              (let (all_young, total) = last_batch rs (ltb→lt (length ids) batch f) in
                (
                  delete_ids ids h,
                  rw (e, f) (ap (λ n. some (n, delete_ids ids h)) total),
                  left h d ∙ all_young,
                ))
          | inr f ↦
              (let full : batch ≤ length ids = ground (arith, f) in
                let kept = left h d in
                let fewer = length-drop_old before batch rs in
                let (after, told, young_left) =
                  loop-Swept fuel (delete_ids ids h) (rw kept (Distinct-drop_old before batch rs d))
                    (rw kept (omega (arith, fewer, size, full, enough))) in
                let total = length-olds-drop_old before batch rs in
                let count : length ids + length (olds before (delete_ids ids h).queue.runs)
                    ≡ length (olds before rs) =
                  rw kept (omega (arith, size, total)) in
                (
                  after,
                  rw (e, f) (ap (more_than (length ids)) told ∙ ap (λ n. some (n, after)) count),
                  young_left ∙ ap (young before) kept ∙ young-drop_old before batch rs,
                ))
        ]
      ]

-- On rows with distinct ids the sweep ends, tells how many runs had finished before its time, and
-- leaves the others as they were and in their order, as one sweep without batches does.
pub prune_run_logs-Swept :
    (before : ℕ) (h : History)
    → Distinct h.queue.runs
    → (after : History) × (prune_run_logs before h ≡ some (count_old_runs before h, after))
      × (after.queue.runs ≡ keep_if (λ r. not (is_old before r)) h.queue.runs)
unfolding prune_run_logs Swept young
prune_run_logs-Swept before h d = loop-Swept before (suc (length h.queue.runs)) h d (omega arith)
