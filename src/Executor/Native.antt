-- ===== src/Executor/Native.antt =====
-- `execute_template`, `execute_template_steps` and `execute_step` of executor.rs.
pub mod Parts
pub mod Promises
use qdrust.Base.{
  ℕ, zero, suc, ◌+◌, min, Text, Bool, true, false, Option, none, some, List, [], ◌∷◌, Result, ok,
  err, map_err, if◌then◌else◌,
}
use qdrust.Base.Dict.{Dict, insert, insert_new}
use qdrust.Json.{Value}
use qdrust.Template.{
  TemplateDefinition, RequestStep, ExtractStep, Step, Steps, request_step, extract_step, if_step,
  for_each, delay, no_steps, step, validate,
}
use qdrust.Executor.{
  Outside, Limits, Context, Machine, StepResult, ExecError, for_each_limit_exceeded,
  extraction_missing, invalid_template, in_step,
}
use qdrust.Executor.Exec.{
  Exec, pure, lift, call, gets, change, change_context, with_context, ◌>>=◌, ◌>>◌,
}
use qdrust.Executor.Request.{execute_request}
use qdrust.Executor.Blocks.{with_variables, push_result, test_condition, loop_values}
use qdrust.Executor.Native.Parts.{step_label, native_request_entry, extracted}

module _ {W : Type 0} where
  -- The rounds of a `for_each`, over its steps.
  unfoldable pub each_rounds : Exec W (Unit {0}) → Text → List Value → Exec W (Unit {0})
  each_rounds run item [] = pure tt
  each_rounds run item (v ∷ vs) =
      let rest = each_rounds run item vs in
      do change_context (with_variables (insert item v)); run; rest

  unfoldable pub store_extracted : ExtractStep → Option Value → Exec W (Unit {0})
  store_extracted x (some v) = change_context (with_variables (insert x.target v))
  store_extracted x none = if x.required then lift (err (extraction_missing x.name)) else pure tt

module _ {W : Type 0} (o : Outside W) (response_limit : ℕ) where
  unfoldable pub run_request : RequestStep → Exec W (Unit {0})
  unfolding execute_request
  run_request r = do
    variables ← gets (λ s. s.context.variables)
    entry ← lift (native_request_entry o r variables)
    result ← execute_request o response_limit entry
    change (push_result result)

  unfoldable pub run_extract : ExtractStep → Exec W (Unit {0})
  unfolding store_extracted
  run_extract x = do
    context ← gets (λ s. s.context)
    value ← lift (extracted o x.source x.selector context)
    store_extracted x value

  unfoldable mutual
    pub execute_template_steps : ℕ → Steps → Exec W (Unit {0})
    execute_template_steps index no_steps = pure tt
    execute_template_steps index (step s rest) = do
      with_context (in_step (step_label index s)) (execute_step s)
      execute_template_steps (suc index) rest

    -- A delay takes time, and changes nothing.
    pub execute_step : Step → Exec W (Unit {0})
    execute_step (request_step r) = run_request r
    execute_step (extract_step x) = run_extract x
    execute_step (if_step condition then_steps otherwise) = do
      holds ← test_condition o response_limit condition
      if holds then execute_template_steps 0 then_steps else execute_template_steps 0 otherwise
    execute_step (for_each item items steps) = do
      values ← loop_values o response_limit for_each_limit_exceeded items
      each_rounds (execute_template_steps 0 steps) item values
    execute_step (delay milliseconds) = pure tt

unfoldable pub declare_all : List (Text × Value) → Dict Value → Dict Value
declare_all [] variables = variables
declare_all ((name, value) ∷ rest) variables = declare_all rest (insert_new name value variables)

-- The context in which the steps of a template begin: here the loop limit stays as it is.
unfoldable pub begin_template : Limits → TemplateDefinition → Context → Context
unfolding declare_all
begin_template limits t c = record c {
  variables = declare_all t.variables c.variables;
  remaining_requests = min c.remaining_requests limits.request_limit;
}

unfoldable pub execute_template :
    {W : Type 0} → Outside W → Limits → TemplateDefinition → Exec W (List StepResult)
unfolding begin_template execute_template_steps
execute_template o limits t = do
  lift (map_err invalid_template (validate t))
  change (λ s. record s { context = begin_template limits t s.context; results = [] })
  execute_template_steps o limits.response_limit 0 t.steps
  gets (λ s. s.results)
