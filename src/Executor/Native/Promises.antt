-- ===== src/Executor/Native/Promises.antt =====
-- What a run of a native template promises to its caller: `execute_template` of executor.rs.
use qdrust.Base.{
  ℕ, suc, ◌+◌, ◌≤◌, min, Text, none, some, Option, List, [], ◌∷◌, ◌++◌, length, Result, ok, err,
  ◌≡◌, refl, arith,
}
use qdrust.Json.{Value}
use qdrust.Template.{
  TemplateDefinition, RequestStep, ExtractStep, Step, Steps, request_step, extract_step, if_step,
  for_each, delay, no_steps, step, validate,
}
use qdrust.Executor.{Outside, Limits, Machine, StepResult, ExecError, Event}
use qdrust.Executor.Exec.{Exec, change, gets, lift, continue, ◌>>=◌}
use qdrust.Executor.Guarantee.{
  succeeded, Guarantee, Guarantee-bind, Guarantee-if, Guarantee-with_context, Guarantee-pure,
  Guarantee-lift, Guarantee-gets,
}
use qdrust.Executor.Progress.{Paired, Progress, Progress-IsLawful}
use qdrust.Executor.Progress.Trace.{request-Progress}
use qdrust.Executor.Progress.Runs.{Progress-variables, test-Progress, values-Progress}
use qdrust.Executor.Native.{
  each_rounds, store_extracted, run_request, run_extract, execute_template_steps, execute_step,
  begin_template, execute_template,
}

module _ {W : Type 0} where
  each_rounds-Progress :
      (run : Exec W (Unit {0})) (item : Text) (vs : List Value)
      → Guarantee Progress run
      → Guarantee Progress (each_rounds run item vs)
  unfolding each_rounds
  each_rounds-Progress run item [] g = Guarantee-pure Progress-IsLawful tt
  each_rounds-Progress run item (v ∷ vs) g =
      Guarantee-bind Progress-IsLawful _ _ (Progress-variables _)
        λ _. Guarantee-bind Progress-IsLawful run _ g λ _. each_rounds-Progress run item vs g

  store-Progress :
      (x : ExtractStep) (v : Option Value) → Guarantee {W = W} Progress (store_extracted x v)
  unfolding store_extracted
  store-Progress x (some v) = Progress-variables _
  store-Progress x none =
      Guarantee-if x.required _ _ (Guarantee-lift Progress-IsLawful _)
        (Guarantee-pure Progress-IsLawful tt)

module _ {W : Type 0} (o : Outside W) (limit : ℕ) where
  run_request-Progress : (r : RequestStep) → Guarantee Progress (run_request o limit r)
  unfolding run_request
  run_request-Progress r =
      Guarantee-bind Progress-IsLawful _ _ (Guarantee-gets Progress-IsLawful _) λ variables.
        Guarantee-bind Progress-IsLawful _ _ (Guarantee-lift Progress-IsLawful _)
          λ entry. request-Progress o limit entry

  run_extract-Progress : (x : ExtractStep) → Guarantee Progress (run_extract o limit x)
  unfolding run_extract
  run_extract-Progress x =
      Guarantee-bind Progress-IsLawful _ _ (Guarantee-gets Progress-IsLawful _) λ context.
        Guarantee-bind Progress-IsLawful _ _ (Guarantee-lift Progress-IsLawful _)
          λ value. store-Progress x value

  mutual
    unfolding execute_template_steps

    steps-Progress :
        (index : ℕ) (steps : Steps)
        → Guarantee Progress (execute_template_steps o limit index steps)
    steps-Progress index no_steps = Guarantee-pure Progress-IsLawful tt
    steps-Progress index (step s rest) =
        Guarantee-bind Progress-IsLawful _ _ (Guarantee-with_context _ _ (step-Progress s))
          λ _. steps-Progress (suc index) rest

    step-Progress : (s : Step) → Guarantee Progress (execute_step o limit s)
    step-Progress (request_step r) = run_request-Progress r
    step-Progress (extract_step x) = run_extract-Progress x
    step-Progress (if_step condition ts fs) =
        Guarantee-bind Progress-IsLawful _ _ (test-Progress o limit condition)
          λ holds. Guarantee-if holds _ _ (steps-Progress 0 ts) (steps-Progress 0 fs)
    step-Progress (for_each item items steps) =
        Guarantee-bind Progress-IsLawful _ _ (values-Progress o limit _ items)
          λ values. each_rounds-Progress _ item values (steps-Progress 0 steps)
    step-Progress (delay milliseconds) = Guarantee-pure Progress-IsLawful tt

abbrev started : {W : Type 0} → Limits → TemplateDefinition → Machine W → Machine W
started limits t s = record s { context = begin_template limits t s.context; results = [] }

module _ {W : Type 0} (o : Outside W) (limits : Limits) (t : TemplateDefinition)
    (s : Machine W) where
  abbrev ran : Result ExecError (Unit {0}) × Machine W
  ran = execute_template_steps o limits.response_limit 0 t.steps (started limits t s)

  abbrev returned :
      Result ExecError (Unit {0}) × Machine W → Result ExecError (List StepResult) × Machine W
  returned (r, u) = continue r (λ _. gets (λ m. m.results)) u

  valid-execute : validate t ≡ ok tt → execute_template o limits t s ≡ returned ran
  unfolding execute_template change lift ◌>>=◌ continue
  valid-execute v = rw v refl

  ran-Progress : Progress (started limits t s) (succeeded ran.0) ran.1
  ran-Progress = (steps-Progress o limits.response_limit 0 t.steps).at (started limits t s)

  abbrev pub Outcome : Result ExecError (List StepResult) × Machine W → Type 0
  Outcome (ok results, u) =
      (length results + u.context.remaining_requests
        ≡ min s.context.remaining_requests limits.request_limit)
      × (u.next_step_index ≡ s.next_step_index + length results)
      × ((es : List Event) × (u.events ≡ s.events ++ es)
          × Paired s.next_step_index es u.next_step_index)
  Outcome (err e, u) =
      (u.next_step_index
        ≤ s.next_step_index + min s.context.remaining_requests limits.request_limit + 1)
      × ((es : List Event) × (u.events ≡ s.events ++ es)
          × Paired s.next_step_index es u.next_step_index)

  returned-Outcome :
      (x : Result ExecError (Unit {0}) × Machine W)
      → Progress (started limits t s) (succeeded x.0) x.1
      → Outcome (returned x)
  unfolding begin_template continue gets
  returned-Outcome (ok u, m) p = (omega (arith, p.paid, p.kept), omega (arith, p.kept), p.traced)
  returned-Outcome (err e, m) p = (omega (arith, p.paid), p.traced)

  -- The run of a valid template, where it returns, has one result for each request that it counted
  -- and paid for out of the smaller of its budget and the request limit; where it fails, it
  -- counted at most one request more than it may send; and either way the events it adds are the
  -- start and the end of each counted request, in turn and in the order of the step indices.
  pub execute_template-Outcome : validate t ≡ ok tt → Outcome (execute_template o limits t s)
  execute_template-Outcome v = rw (valid-execute v) (returned-Outcome ran ran-Progress)
