-- ===== src/Executor/Rules/Laws.antt =====
-- The assertions of executor.rs.
use qdrust.Base.{
  ℕ, Text, Bool, true, false, List, [], ◌∷◌, Result, ok, err, ◌≡◌, ◌↔◌, refl, inl, inr, ◌⊎◌, All,
  >>=-elim, if◌then◌else◌,
}
use qdrust.Base.Dict.{Dict}
use qdrust.Json.{Value}
use qdrust.Har.{Rule}
use qdrust.Executor.{Outside, ExecError, failed_assertion}
use qdrust.Executor.Rules.{try_rule, check_each, check_rules}

module _ {W : Type 0} (o : Outside W) (status : ℕ) (headers : List (Text × Text)) (content : Text)
    (variables : Dict Value) where
  -- The rule could be tried, and matched or did not.
  abbrev pub Answers : Bool → Rule → Type 0
  Answers b rule = (p : Text) × (try_rule o status headers content variables rule ≡ ok (p, b))

  abbrev each : Bool → List Rule → Result ExecError (Unit {0})
  each = check_each o status headers content variables

  abbrev check : Bool → List Rule → Result ExecError (Unit {0})
  check = check_rules o status headers content variables

  missed :
      (rule : Rule) (rules : List Rule) (tried : Text × Bool)
      → try_rule o status headers content variables rule ≡ ok tried
      → (if tried.1 then err (failed_assertion tried.0) else each false rules) ≡ ok tt
      → Answers false rule × (each false rules ≡ ok tt)
  missed rule rules (p, true) e h = cc
  missed rule rules (p, false) e h = ((p, e), h)

  each_failed : (rules : List Rule) → each false rules ≡ ok tt → All (Answers false) rules
  unfolding check_each
  each_failed [] h = tt
  each_failed (rule ∷ rules) h =
      >>=-elim (try_rule o status headers content variables rule) _ h λ tried e h2.
        let found = missed rule rules tried e h2 in (found.0, each_failed rules found.1)

  failed_each : (rules : List Rule) → All (Answers false) rules → each false rules ≡ ok tt
  unfolding check_each
  failed_each [] h = refl
  failed_each (rule ∷ rules) ((p, e), h) = rw e (failed_each rules h)

  -- The first rule that answers, after rules that did not match, matches.
  pub data Hits : List Rule → Type 0 where
    here : {rule : Rule} {rules : List Rule} → Answers true rule → Hits (rule ∷ rules)
    later :
        {rule : Rule} {rules : List Rule} → Answers false rule → Hits rules → Hits (rule ∷ rules)

  hit :
      (rule : Rule) (rules : List Rule) (tried : Text × Bool)
      → try_rule o status headers content variables rule ≡ ok tried
      → (each true rules ≡ ok tt → Hits rules)
      → (if tried.1 then ok tt else each true rules) ≡ ok tt
      → Hits (rule ∷ rules)
  hit rule rules (p, true) e rest h = here (p, e)
  hit rule rules (p, false) e rest h = later (p, e) (rest h)

  each_success : (rules : List Rule) → each true rules ≡ ok tt → Hits rules
  unfolding check_each
  each_success [] h = cc
  each_success (rule ∷ rules) h =
      >>=-elim (try_rule o status headers content variables rule) _ h
        λ tried e h2. hit rule rules tried e (each_success rules) h2

  success_each : {rules : List Rule} → Hits rules → each true rules ≡ ok tt
  unfolding check_each
  success_each (here (p, e)) = rw e
  success_each (later (p, e) h) = rw e (success_each h)

  -- Failure assertions let a response pass exactly when each of them could be tried and none
  -- matches.
  pub check_rules_failed :
      (rules : List Rule) → (check false rules ≡ ok tt) ↔ All (Answers false) rules
  unfolding check_rules
  check_rules_failed [] = (λ h. tt, λ h. refl)
  check_rules_failed (rule ∷ rules) = (each_failed (rule ∷ rules), failed_each (rule ∷ rules))

  -- Success assertions let a response pass exactly when there are none, or one matches and those
  -- before it could be tried and do not match.
  pub check_rules_success :
      (rules : List Rule) → (check true rules ≡ ok tt) ↔ ((rules ≡ []) ⊎ Hits rules)
  unfolding check_rules
  check_rules_success [] = (λ h. inl refl, λ h. refl)
  check_rules_success (rule ∷ rules) = (
    λ h. inr (each_success (rule ∷ rules) h),
    λ found. elim found [ inl e ↦ cc | inr h ↦ success_each h ],
  )
