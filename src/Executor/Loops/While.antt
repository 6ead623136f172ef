-- ===== src/Executor/Loops/While.antt =====
-- The `while` blocks of executor.rs.
use qdrust.Base.{
  ℕ, zero, suc, ◌+◌, ◌<◌, ◌==◌, Bool, true, false, Result, ok, err, ◌≡◌, ◌↔◌, refl, sym, ap, ◌∙◌,
  arith, Bool-cases, inl, inr, if◌then◌else◌,
}
use qdrust.Executor.{Machine, ExecError, while_limit_exceeded}
use qdrust.Executor.Exec.{Exec, pure, lift, change_context, ◌>>=◌, bind-elim, bind_step}
use qdrust.Executor.Loops.{set_loop_variables}
use qdrust.Executor.Blocks.{with_variables, while_rounds}

module _ {W : Type 0} (test : Exec W Bool) (run : Exec W (Unit {0})) (limit : ℕ) where
  -- The loop variables of one round.
  abbrev in_round : ℕ → Machine W → Machine W
  in_round index s = record s {
    context = with_variables (set_loop_variables index limit) s.context;
  }

  -- A loop with no limit: from the round `index` on, it tests and runs its body so often, and ends
  -- by its test.
  pub data Loops : ℕ → ℕ → Machine W → Machine W → Type 0 where
    ends :
        {index : ℕ} {s t : Machine W}
        → test (in_round index s) ≡ (ok false, t)
        → Loops zero index s t
    runs :
        {n index : ℕ} {s u v t : Machine W}
        → test (in_round index s) ≡ (ok true, u)
        → run u ≡ (ok tt, v)
        → Loops n (suc index) v t
        → Loops (suc n) index s t

  to_round :
      (index : ℕ) (s : Machine W)
      → change_context (with_variables (set_loop_variables index limit)) s
        ≡ (ok tt, in_round index s)
  unfolding change_context
  to_round index s = refl

  -- The rest of a round whose test was made.
  after_test : ℕ → ℕ → Bool → Exec W (Unit {0})
  after_test left index holds =
      if holds
      then (run >>= λ _.
          if index + 1 == limit
          then lift (err while_limit_exceeded)
          else while_rounds test run limit left (suc index))
      else pure tt

  round_lem :
      (left index : ℕ) (s : Machine W)
      → while_rounds test run limit (suc left) index s
        ≡ (test >>= after_test left index) (in_round index s)
  unfolding while_rounds after_test
  round_lem left index s = bind_step _ _ (to_round index s)

  pure_state : (u t : Machine W) → pure tt u ≡ (ok tt, t) → u ≡ t
  unfolding pure
  pure_state u t h = ap (λ (x : Result ExecError (Unit {0}) × Machine W). x.1) h

  over : (u t : Machine W) → lift {A = Unit {0}} (err while_limit_exceeded) u ≡ (ok tt, t) → ⊥
  unfolding lift
  over u t h = cc

  after_true :
      (left index : ℕ) (u v t : Machine W)
      → index + 1 == limit ≡ false
      → run u ≡ (ok tt, v)
      → while_rounds test run limit left (suc index) v ≡ (ok tt, t)
      → after_test left index true u ≡ (ok tt, t)
  unfolding after_test
  after_true left index u v t more ran h = bind_step run _ ran ∙ rw more h

  -- The rounds behind this one, where they are known to be like the unlimited loop.
  after_test-Loops :
      (left index : ℕ) (s u t : Machine W) (holds : Bool)
      → suc left + index ≡ limit
      → ((v : Machine W)
          → 0 < left
          → while_rounds test run limit left (suc index) v ≡ (ok tt, t)
          → (n : ℕ) × (n < left) × Loops n (suc index) v t)
      → test (in_round index s) ≡ (ok holds, u)
      → after_test left index holds u ≡ (ok tt, t)
      → (n : ℕ) × (n < suc left) × Loops n index s t
  unfolding after_test
  after_test-Loops left index s u t false e rest tested h =
      (zero, omega arith, ends (tested ∙ ap (λ v. (ok false, v)) (pure_state u t h)))
  after_test-Loops left index s u t true e rest tested h = bind-elim run _ h λ a v ran h2.
      elim (Bool-cases (index + 1 == limit)) [
        | inl last ↦ absurd (over v t (rw last at h2))
        | inr more ↦
            let (n, fits, loops) = rest v (ground arith) (rw more at h2) in
            (suc n, omega arith, runs tested ran loops)
      ]

  while-Loops :
      (left index : ℕ) (s t : Machine W)
      → 0 < left
      → left + index ≡ limit
      → while_rounds test run limit left index s ≡ (ok tt, t)
      → (n : ℕ) × (n < left) × Loops n index s t
  while-Loops zero index s t p e h = elim p [ ]
  while-Loops (suc left) index s t p e h =
      bind-elim test (after_test left index) (sym (round_lem left index s) ∙ h) λ holds u tested h1.
        after_test-Loops left index s u t holds e
          (λ v q. while-Loops left (suc index) v t q (omega arith)) tested h1

  Loops-while :
      (n left index : ℕ) (s t : Machine W)
      → n < left
      → left + index ≡ limit
      → Loops n index s t
      → while_rounds test run limit left index s ≡ (ok tt, t)
  Loops-while n zero index s t p e l = elim p [ ]
  Loops-while n (suc left) index s t p e (ends stop) =
      round_lem left index s
      ∙ bind_step test (after_test left index) stop
      ∙ unfold after_test pure in refl
  Loops-while n (suc left) index s t p e (runs {n = m} {u} {v} holds ran l) =
      round_lem left index s
      ∙ bind_step test (after_test left index) holds
      ∙ after_true left index u v t (ground arith) ran
          (Loops-while m left (suc index) v t (omega arith) (omega arith) l)

  -- A `while` whose limit is positive returns exactly where the loop without a limit ends by its
  -- test after fewer rounds than the limit, and then in the same state; its body has run once for
  -- each of these rounds.
  pub while-iff-Loops :
      (s t : Machine W)
      → 0 < limit
      → (while_rounds test run limit limit 0 s ≡ (ok tt, t))
        ↔ ((n : ℕ) × (n < limit) × Loops n 0 s t)
  while-iff-Loops s t p = (
    while-Loops limit 0 s t p (omega arith),
    λ found. Loops-while found.0 limit 0 s t found.1 (omega arith) found.2,
  )
