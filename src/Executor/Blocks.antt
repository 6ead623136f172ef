-- ===== src/Executor/Blocks.antt =====
-- `execute`, `execute_blocks` and `execute_block` of executor.rs.
use qdrust.Base.{
  ℕ, zero, suc, ◌+◌, ◌==◌, leb, min, Text, Bool, Option, none, some, List, [], ◌∷◌, ◌++◌, length,
  Result, ok, err, ensure, if◌then◌else◌,
}
use qdrust.Base.Dict.{Dict, lookup, insert}
use qdrust.Json.{Value}
use qdrust.Har.{Block, Blocks, request, for_block, while_block, if_block, no_blocks, block}
use qdrust.Executor.{
  Outside, Limits, Context, Machine, StepResult, ExecError, for_limit_exceeded,
  while_limit_exceeded, in_step,
}
use qdrust.Executor.Exec.{
  Exec, pure, lift, call, gets, change, change_context, with_context, ◌>>=◌, ◌>>◌,
}
use qdrust.Executor.Labels.{block_label}
use qdrust.Executor.Loops.{iterable_values, set_loop_variables, enter_loop, leave_loop}
use qdrust.Executor.Request.{execute_request}

unfoldable pub with_variables : (Dict Value → Dict Value) → Context → Context
with_variables f c = record c { variables = f c.variables }

unfoldable pub bind_target : Text → Value → ℕ → ℕ → Dict Value → Dict Value
bind_target target value index length variables =
    set_loop_variables index length (insert target value variables)

module _ {W : Type 0} where
  -- The rounds of a `for`, over its body.
  unfoldable pub for_rounds : Exec W (Unit {0}) → Text → ℕ → ℕ → List Value → Exec W (Unit {0})
  for_rounds run target length index [] = pure tt
  for_rounds run target length index (v ∷ vs) =
      let rest = for_rounds run target length (suc index) vs in
      do change_context (with_variables (bind_target target v index length)); run; rest

  -- The rounds of a `while`, over its test and its body: the number of rounds that are left, the
  -- limit and the index.
  unfoldable pub while_rounds : Exec W Bool → Exec W (Unit {0}) → ℕ → ℕ → ℕ → Exec W (Unit {0})
  while_rounds test run limit zero index = pure tt
  while_rounds test run limit (suc left) index =
      let rest = while_rounds test run limit left (suc index) in
      do
        change_context (with_variables (set_loop_variables index limit))
        holds ← test
        if holds
            then (do run; if index + 1 == limit then lift (err while_limit_exceeded) else rest)
            else pure tt

  unfoldable pub push_result : StepResult → Machine W → Machine W
  push_result r s = record s { results = s.results ++ r ∷ [] }

module _ {W : Type 0} (o : Outside W) (response_limit : ℕ) where
  unfoldable pub test_condition : Text → Exec W Bool
  test_condition condition = do
    variables ← gets (λ s. s.context.variables)
    call (o.evaluate_bool condition variables)

  loop_source : Text → Dict Value → Option Value → Result Text Value
  loop_source source variables none = o.evaluate source variables
  loop_source source variables (some v) = ok v

  -- The values that a `for` runs over, within the limit.
  unfoldable pub loop_values : ExecError → Text → Exec W (List Value)
  unfolding loop_source
  loop_values limit_error source = do
    variables ← gets (λ s. s.context.variables)
    value ← call (loop_source source variables (lookup source variables))
    values ← lift (iterable_values value)
    limit ← gets (λ s. s.context.loop_limit)
    lift (ensure (leb (length values) limit) limit_error)
    pure values

  unfoldable mutual
    unfolding execute_request

    pub execute_blocks : ℕ → Blocks → Exec W (Unit {0})
    execute_blocks index no_blocks = pure tt
    execute_blocks index (block b bs) = do
      with_context (in_step (block_label index b)) (execute_block b)
      execute_blocks (suc index) bs

    pub execute_block : Block → Exec W (Unit {0})
    execute_block (request entry) = do
      result ← execute_request o response_limit entry
      change (push_result result)
    execute_block (if_block condition then_blocks else_blocks) = do
      holds ← test_condition condition
      if holds then execute_blocks 0 then_blocks else execute_blocks 0 else_blocks
    execute_block (for_block target source body) = do
      values ← loop_values for_limit_exceeded source
      change_context (with_variables enter_loop)
      for_rounds (execute_blocks 0 body) target (length values) 0 values
      change_context (with_variables leave_loop)
    execute_block (while_block condition body) = do
      change_context (with_variables enter_loop)
      limit ← gets (λ s. s.context.loop_limit)
      while_rounds (test_condition condition) (execute_blocks 0 body) limit limit 0
      change_context (with_variables leave_loop)

unfoldable pub clamp : Limits → Context → Context
clamp limits c = record c {
  remaining_requests = min c.remaining_requests limits.request_limit;
  loop_limit = min c.loop_limit limits.loop_limit;
}

-- `execute`: the results of this call are a list of their own.
unfoldable pub execute : {W : Type 0} → Outside W → Limits → Blocks → Exec W (List StepResult)
unfolding clamp execute_blocks
execute o limits blocks = do
  change (λ s. record s { context = clamp limits s.context; results = [] })
  execute_blocks o limits.response_limit 0 blocks
  gets (λ s. s.results)
