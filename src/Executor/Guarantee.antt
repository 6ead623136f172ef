-- ===== src/Executor/Guarantee.antt =====
-- Relations between the run before and after a method of executor.rs, with a rule for each way to
-- build a method.
use qdrust.Base.{
  Text, Bool, true, false, Result, ok, err, map_err, ◌≡◌, refl, sym, subst, if◌then◌else◌,
}
use qdrust.Executor.{Context, ExecError, Machine}
use qdrust.Executor.Exec.{
  Exec, pure, lift, call, gets, with_context, change, change_context, continue, ◌>>=◌,
}

abbrev pub succeeded : {E A : Type 0} → Result E A → Bool
succeeded (ok a) = true
succeeded (err e) = false

-- The run before, whether the method succeeded, and the run after.
abbrev pub Relation : Type 0 → Type 1
Relation W = Machine W → Bool → Machine W → Type 0

pub record IsLawful {W : Type 0} (R : Relation W) : Type 0 where
  pub same : (s : Machine W) (b : Bool) → R s b s
  pub then_after : (s t u : Machine W) (b : Bool) → R s true t → R t b u → R s b u

pub record Guarantee {W A : Type 0} (R : Relation W) (m : Exec W A) : Type 0 where
  pub at : (s : Machine W) → R s (succeeded (m s).0) (m s).1

module _ {W A : Type 0} {R : Relation W} (laws : IsLawful R) where
  pub Guarantee-pure : (a : A) → Guarantee R (pure {W = W} a)
  unfolding pure
  Guarantee-pure a = record { at = λ s. laws.same s true }

  pub Guarantee-lift : (r : Result ExecError A) → Guarantee R (lift {W = W} r)
  unfolding lift
  Guarantee-lift r = record { at = λ s. laws.same s _ }

  pub Guarantee-call : (r : Result Text A) → Guarantee R (call {W = W} r)
  unfolding call
  Guarantee-call r = record { at = λ s. laws.same s _ }

  pub Guarantee-gets : (f : Machine W → A) → Guarantee R (gets f)
  unfolding gets
  Guarantee-gets f = record { at = λ s. laws.same s true }

succeeded-map_err :
    {A : Type 0} (f : ExecError → ExecError) (r : Result ExecError A)
    → succeeded (map_err f r) ≡ succeeded r
succeeded-map_err f (ok a) = refl
succeeded-map_err f (err e) = refl

module _ {W A : Type 0} {R : Relation W} where
  pub Guarantee-with_context :
      (f : ExecError → ExecError) (m : Exec W A) → Guarantee R m → Guarantee R (with_context f m)
  unfolding with_context
  Guarantee-with_context f m g = record {
    at = λ s. subst (λ b. R s b (m s).1) (sym (succeeded-map_err f (m s).0)) (g.at s);
  }

  pub Guarantee-if :
      (b : Bool) (m n : Exec W A) → Guarantee R m → Guarantee R n → Guarantee R (if b then m else n)
  Guarantee-if true m n g h = g
  Guarantee-if false m n g h = h

module _ {W : Type 0} {R : Relation W} where
  pub Guarantee-change :
      (f : Machine W → Machine W) → ((s : Machine W) → R s true (f s)) → Guarantee R (change f)
  unfolding change
  Guarantee-change f h = record { at = h }

  pub Guarantee-change_context :
      (f : Context → Context)
      → ((s : Machine W) → R s true (record s { context = f s.context }))
      → Guarantee R (change_context f)
  unfolding change_context
  Guarantee-change_context f h = record { at = h }

module _ {W A B : Type 0} {R : Relation W} (laws : IsLawful R) where
  Guarantee-continue :
      (f : A → Exec W B) (s t : Machine W) (r : Result ExecError A)
      → ((a : A) → Guarantee R (f a))
      → R s (succeeded r) t
      → R s (succeeded (continue r f t).0) (continue r f t).1
  unfolding continue
  Guarantee-continue f s t (ok a) g h = laws.then_after s t _ _ h ((g a).at t)
  Guarantee-continue f s t (err e) g h = h

  pub Guarantee-bind :
      (m : Exec W A) (f : A → Exec W B)
      → Guarantee R m
      → ((a : A) → Guarantee R (f a))
      → Guarantee R (m >>= f)
  unfolding ◌>>=◌
  Guarantee-bind m f g h = record { at = λ s. Guarantee-continue f s (m s).1 (m s).0 h (g.at s) }

pub ruleset guarantee_rules = (
  Guarantee-pure, Guarantee-lift, Guarantee-call, Guarantee-gets, Guarantee-with_context,
  Guarantee-if, Guarantee-bind,
)
