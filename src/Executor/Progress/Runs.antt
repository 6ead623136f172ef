-- ===== src/Executor/Progress/Runs.antt =====
-- The blocks of a program keep to their requests: executor.rs.
use qdrust.Base.{ℕ, zero, suc, ◌+◌, ◌==◌, Text, Bool, true, List, [], ◌∷◌, refl}
use qdrust.Base.Dict.{Dict}
use qdrust.Json.{Value}
use qdrust.Har.{Block, Blocks, request, for_block, while_block, if_block, no_blocks, block}
use qdrust.Executor.{Outside, ExecError}
use qdrust.Executor.Exec.{Exec, change_context}
use qdrust.Executor.Guarantee.{
  Guarantee, guarantee_rules, Guarantee-bind, Guarantee-if, Guarantee-change_context,
  Guarantee-with_context, Guarantee-pure, Guarantee-lift, Guarantee-gets,
}
use qdrust.Executor.Progress.{Progress, Progress-IsLawful, Frame-Progress}
use qdrust.Executor.Progress.Trace.{request-Progress}
use qdrust.Executor.Blocks.{
  with_variables, for_rounds, while_rounds, test_condition, loop_values, execute_blocks,
  execute_block,
}

module _ {W : Type 0} where
  pub Progress-variables :
      (f : Dict Value → Dict Value) → Guarantee {W = W} Progress (change_context (with_variables f))
  unfolding with_variables
  Progress-variables f = Guarantee-change_context _ λ s.
      Frame-Progress s _ true
        (record { remaining = refl; limit = refl; index = refl; results = refl; events = refl })

  ruleset run_rules = (guarantee_rules, Progress-IsLawful, Progress-variables)

  for_rounds-Progress :
      (run : Exec W (Unit {0})) (target : Text) (length index : ℕ) (vs : List Value)
      → Guarantee Progress run
      → Guarantee Progress (for_rounds run target length index vs)
  unfolding for_rounds
  for_rounds-Progress run target length index [] g = search run_rules
  for_rounds-Progress run target length index (v ∷ vs) g =
      Guarantee-bind Progress-IsLawful _ _ (Progress-variables _) λ _.
        Guarantee-bind Progress-IsLawful run _ g
          λ _. for_rounds-Progress run target length (suc index) vs g

  while_rounds-Progress :
      (test : Exec W Bool) (run : Exec W (Unit {0})) (limit left index : ℕ)
      → Guarantee Progress test
      → Guarantee Progress run
      → Guarantee Progress (while_rounds test run limit left index)
  unfolding while_rounds
  while_rounds-Progress test run limit zero index t g = search run_rules
  while_rounds-Progress test run limit (suc left) index t g =
      let rest = while_rounds-Progress test run limit left (suc index) t g in
      Guarantee-bind Progress-IsLawful _ _ (Progress-variables _) λ _.
        Guarantee-bind Progress-IsLawful test _ t λ holds.
          Guarantee-if holds _ _
            (Guarantee-bind Progress-IsLawful run _ g
              λ _. Guarantee-if (index + 1 == limit) _ _ (Guarantee-lift Progress-IsLawful _) rest)
            (Guarantee-pure Progress-IsLawful tt)

module _ {W : Type 0} (o : Outside W) (response_limit : ℕ) where
  pub test-Progress :
      (condition : Text) → Guarantee Progress (test_condition o response_limit condition)
  unfolding test_condition
  test-Progress condition = search run_rules

  pub values-Progress :
      (e : ExecError) (source : Text) → Guarantee Progress (loop_values o response_limit e source)
  unfolding loop_values
  values-Progress e source = search run_rules depth 12

  mutual
    unfolding execute_blocks

    pub blocks-Progress :
        (index : ℕ) (bs : Blocks) → Guarantee Progress (execute_blocks o response_limit index bs)
    blocks-Progress index no_blocks = Guarantee-pure Progress-IsLawful tt
    blocks-Progress index (block b bs) =
        Guarantee-bind Progress-IsLawful _ _ (Guarantee-with_context _ _ (block-Progress b))
          λ _. blocks-Progress (suc index) bs

    pub block-Progress : (b : Block) → Guarantee Progress (execute_block o response_limit b)
    block-Progress (request entry) = request-Progress o response_limit entry
    block-Progress (if_block condition ts fs) =
        Guarantee-bind Progress-IsLawful _ _ (test-Progress condition)
          λ holds. Guarantee-if holds _ _ (blocks-Progress 0 ts) (blocks-Progress 0 fs)
    block-Progress (for_block target source body) =
        Guarantee-bind Progress-IsLawful _ _ (values-Progress _ source) λ values.
          Guarantee-bind Progress-IsLawful _ _ (Progress-variables _) λ _.
            Guarantee-bind Progress-IsLawful _ _
              (for_rounds-Progress _ target _ 0 values (blocks-Progress 0 body))
              λ _. Progress-variables _
    block-Progress (while_block condition body) =
        Guarantee-bind Progress-IsLawful _ _ (Progress-variables _) λ _.
          Guarantee-bind Progress-IsLawful _ _ (Guarantee-gets Progress-IsLawful _) λ limit.
            Guarantee-bind Progress-IsLawful _ _
              (while_rounds-Progress _ _ limit limit 0 (test-Progress condition)
                (blocks-Progress 0 body))
              λ _. Progress-variables _
