-- ===== src/Executor/Promises.antt =====
-- What a run of a QD program promises to its caller: `execute` of executor.rs.
use qdrust.Base.{◌+◌, ◌≤◌, min, List, [], ◌++◌, length, Result, ok, err, ◌≡◌, refl, arith, subst}
use qdrust.Har.{Blocks}
use qdrust.Executor.{Outside, Limits, Machine, StepResult, ExecError, Event}
use qdrust.Executor.Exec.{change, gets, continue, ◌>>=◌}
use qdrust.Executor.Guarantee.{succeeded}
use qdrust.Executor.Blocks.{execute_blocks, execute, clamp}
use qdrust.Executor.Progress.{Paired, Progress}
use qdrust.Executor.Progress.Runs.{blocks-Progress}

-- The run of the blocks that `execute` makes.
abbrev cleared : {W : Type 0} → Limits → Machine W → Machine W
cleared limits s = record s { context = clamp limits s.context; results = [] }

module _ {W : Type 0} (o : Outside W) (limits : Limits) (program : Blocks) (s : Machine W) where
  -- The run of the blocks, and what `execute` makes of it.
  abbrev ran : Result ExecError (Unit {0}) × Machine W
  ran = execute_blocks o limits.response_limit 0 program (cleared limits s)

  abbrev returned :
      Result ExecError (Unit {0}) × Machine W → Result ExecError (List StepResult) × Machine W
  returned (r, t) = continue r (λ _. gets (λ u. u.results)) t

  execute_lem : execute o limits program s ≡ returned ran
  unfolding execute change ◌>>=◌
  execute_lem = refl

  ran-Progress : Progress (cleared limits s) (succeeded ran.0) ran.1
  ran-Progress = (blocks-Progress o limits.response_limit 0 program).at (cleared limits s)

  abbrev Accounts : Result ExecError (List StepResult) × Machine W → Type 0
  Accounts (ok results, t) =
      (length results + t.context.remaining_requests
        ≡ min s.context.remaining_requests limits.request_limit)
      × (t.next_step_index ≡ s.next_step_index + length results)
  Accounts (err e, t) = Unit

  returned-Accounts :
      (x : Result ExecError (Unit {0}) × Machine W)
      → Progress (cleared limits s) (succeeded x.0) x.1
      → Accounts (returned x)
  unfolding clamp continue gets
  returned-Accounts (ok u, t) p = (omega (arith, p.paid, p.kept), omega (arith, p.kept))
  returned-Accounts (err e, t) p = tt

  returned-index :
      (x : Result ExecError (Unit {0}) × Machine W)
      → Progress (cleared limits s) (succeeded x.0) x.1
      → (returned x).1.next_step_index
        ≤ s.next_step_index + min s.context.remaining_requests limits.request_limit + 1
  unfolding clamp continue gets
  returned-index (ok u, t) p = omega (arith, p.paid)
  returned-index (err e, t) p = omega (arith, p.paid)

  returned-state : (x : Result ExecError (Unit {0}) × Machine W) → (returned x).1 ≡ x.1
  unfolding continue gets
  returned-state (ok u, t) = refl
  returned-state (err e, t) = refl

  -- A run that returns has one result for each request that it counted and paid for, so the
  -- results and the requests that are left make up the smaller of the run's own budget and the
  -- executor's request limit.
  pub length-execute :
      {results : List StepResult} {t : Machine W}
      → execute o limits program s ≡ (ok results, t)
      → (length results + t.context.remaining_requests
          ≡ min s.context.remaining_requests limits.request_limit)
        × (t.next_step_index ≡ s.next_step_index + length results)
  length-execute h = subst Accounts h (rw execute_lem (returned-Accounts ran ran-Progress))

  -- Whether it returns or fails, a run counts at most one request more than it may send: that last
  -- one is refused.
  pub index-execute-le :
      (execute o limits program s).1.next_step_index
      ≤ s.next_step_index + min s.context.remaining_requests limits.request_limit + 1
  index-execute-le = rw execute_lem (returned-index ran ran-Progress)

  -- Whether it returns or fails, a run adds to the observer's events the start and the end of each
  -- request that it counted, in turn and in the order of the step indices, and nothing else.
  pub events-execute :
      let t = (execute o limits program s).1 in
      (es : List Event) × (t.events ≡ s.events ++ es)
      × Paired s.next_step_index es t.next_step_index
  unfolding clamp
  events-execute = rw (execute_lem, returned-state ran) ran-Progress.traced
