-- ===== src/Auth/Limiter/Bounds.antt =====
-- How many passwords the login of auth.rs and api.rs tests.
use qdrust.Base.{
  ℕ, suc, ◌+◌, ◌-◌, ◌≤◌, ◌<◌, ltb, ltb→lt, min, Text, text_eq, text_eq_refl, true, false, none,
  some, List, [], ◌∷◌, All, length, ◌≡◌, refl, ◌∙◌, arith, if◌then◌else◌, Bool-cases, Option-cases,
  inl, inr,
}
use qdrust.Base.Dict.{lookup, insert, lookup-insert, lookup-remove}
use qdrust.Auth.Limiter.{
  AttemptWindow, Limiter, Login, accepted, rejected, unverified, State, settle, u32_max, is_over,
  allowed, record_failure, record_success, attempt,
}

-- Failing logins under one key, at these times: how many passwords are tested, and the state.
unfoldable pub failing : Limiter → Text → List ℕ → State → ℕ × State
unfolding attempt settle record_failure
failing l key [] s = (0, s)
failing l key (now ∷ times) s =
    let a = attempt l key now rejected s in
    let rest = failing l key times a.1 in ((if a.0 then suc rest.0 else rest.0), rest.1)

module _ (l : Limiter) (key : Text) where
  shut :
      (now : ℕ) (s : State) (w : AttemptWindow)
      → lookup key s ≡ some w
      → now - w.started < l.window
      → l.max_attempts ≤ w.failures
      → attempt l key now rejected s ≡ (false, s)
  unfolding attempt settle
  shut now s w e h k =
      let over : is_over l key now w ≡ false = unfold is_over in ground arith in
      let many : ltb w.failures l.max_attempts ≡ false = ground arith in rw (e, over, many) refl

  counted :
      (now : ℕ) (s : State) (w : AttemptWindow)
      → lookup key s ≡ some w
      → now - w.started < l.window
      → w.failures < l.max_attempts
      → l.max_attempts ≤ u32_max
      → attempt l key now rejected s ≡ (true, insert key (record w { failures = w.failures + 1 }) s)
  unfolding attempt settle record_failure
  counted now s w e h k m =
      let over : is_over l key now w ≡ false = unfold is_over in ground arith in
      let few : ltb w.failures l.max_attempts ≡ true = ground arith in
      let sum : min u32_max (w.failures + 1) ≡ w.failures + 1 = omega (arith, k, m) in
      rw (e, over, few, e, over, sum) refl

  first :
      (now : ℕ) (s : State)
      → lookup key s ≡ none
      → attempt l key now rejected s ≡ (true, insert key (record { started = now; failures = 1 }) s)
  unfolding attempt settle record_failure
  first now s e = rw (e, e) refl

  inserted : (w : AttemptWindow) (s : State) → lookup key (insert key w s) ≡ some w
  inserted w s = lookup-insert key key w s ∙ rw (text_eq_refl key) refl

  failing-window :
      (times : List ℕ) (s : State) (w : AttemptWindow)
      → lookup key s ≡ some w
      → All (λ now. now - w.started < l.window) times
      → w.failures ≤ l.max_attempts
      → l.max_attempts ≤ u32_max
      → (failing l key times s).0 ≡ min (length times) (l.max_attempts - w.failures)
  unfolding failing
  failing-window [] s w e h k m = omega arith
  failing-window (now ∷ times) s w e (p, h) k m =
      elim (Bool-cases (ltb w.failures l.max_attempts)) [
        | inl f ↦
            let next : AttemptWindow = record w { failures = w.failures + 1 } in
            rw (counted now s w e p (ground arith) m) (
              omega (
                arith,
                k,
                ltb→lt w.failures l.max_attempts f,
                failing-window times (insert key next s) next (inserted next s) h (ground arith) m,
              ))
        | inr f ↦
            rw (shut now s w e p (ground arith)) (ground (arith, failing-window times s w e h k m))
      ]

  -- Where no failure of a user is on record, failing logins that begin with one and all fall into
  -- the window that it opens have as many passwords tested as the limit allows, or as there are.
  pub failing-count :
      (now : ℕ) (times : List ℕ) (s : State)
      → lookup key s ≡ none
      → All (λ t. t - now < l.window) times
      → 1 ≤ l.max_attempts
      → l.max_attempts ≤ u32_max
      → (failing l key (now ∷ times) s).0 ≡ min (suc (length times)) l.max_attempts
  unfolding failing
  failing-count now times s e h k m =
      let w : AttemptWindow = record { started = now; failures = 1 } in
      rw (first now s e)
        (omega (arith, k, failing-window times (insert key w s) w (inserted w s) h k m))

  allowed-others :
      (other : Text) (now : ℕ) (s : State)
      → text_eq key other ≡ false
      → lookup other (allowed l key now s).1 ≡ lookup other s
  unfolding allowed
  allowed-others other now s h = elim (Option-cases (lookup key s)) [
    | inl e ↦ rw e refl
    | inr (w, e) ↦ elim (Bool-cases (is_over l key now w)) [
      | inl o ↦ rw (e, o) (lookup-remove key other s ∙ rw h refl)
      | inr o ↦ rw (e, o) refl
    ]
  ]

  settle-others :
      (other : Text) (now : ℕ) (found : Login) (s : State)
      → text_eq key other ≡ false
      → lookup other (settle l key now found s) ≡ lookup other s
  unfolding settle record_failure record_success
  settle-others other now accepted s h = lookup-remove key other s ∙ rw h refl
  settle-others other now rejected s h = lookup-insert key other _ s ∙ rw h refl
  settle-others other now unverified s h = refl

  recorded :
      (other : Text) (now : ℕ) (found : Login) (s : State)
      → text_eq key other ≡ false
      → lookup other (attempt l key now found s).1 ≡ lookup other (allowed l key now s).1
  unfolding attempt settle record_failure
  recorded other now found s h =
      let t = (allowed l key now s).1 in
      elim (Bool-cases (allowed l key now s).0) [
        | inr a ↦ rw a refl
        | inl a ↦ rw a (settle-others other now found t h)
      ]

  -- A login under one key changes what is on record for that key only, whatever its outcome.
  pub attempt-others :
      (other : Text) (now : ℕ) (found : Login) (s : State)
      → text_eq key other ≡ false
      → lookup other (attempt l key now found s).1 ≡ lookup other s
  attempt-others other now found s h = recorded other now found s h ∙ allowed-others other now s h
