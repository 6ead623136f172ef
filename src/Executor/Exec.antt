-- ===== src/Executor/Exec.antt =====
-- The methods of executor.rs that change a run and may fail. What was written before an error stays
-- written.
use qdrust.Base.{Text, Result, ok, err, map_err, ◌≡◌, refl, ap}
use qdrust.Executor.{Context, ExecError, message, Machine}

abbrev pub Exec : Type 0 → Type 0 → Type 0
Exec W A = Machine W → Result ExecError A × Machine W

module _ {W A : Type 0} where
  unfoldable pub pure : A → Exec W A
  pure a s = (ok a, s)

  unfoldable pub lift : Result ExecError A → Exec W A
  lift r s = (r, s)

  -- `?` on a call whose error is a message of another crate.
  unfoldable pub call : Result Text A → Exec W A
  call r s = (map_err message r, s)

  unfoldable pub gets : (Machine W → A) → Exec W A
  gets f s = (ok (f s), s)

  -- A call that changes what lies outside.
  unfoldable pub outside : (W → Result Text A × W) → Exec W A
  outside f s = let (r, w) = f s.world in (map_err message r, record s { world = w })

  -- `.with_context(…)` and `.map_err(…)`.
  unfoldable pub with_context : (ExecError → ExecError) → Exec W A → Exec W A
  with_context f m s = let (r, s') = m s in (map_err f r, s')

module _ {W : Type 0} where
  unfoldable pub change : (Machine W → Machine W) → Exec W (Unit {0})
  change f s = (ok tt, f s)

  unfoldable pub change_context : (Context → Context) → Exec W (Unit {0})
  change_context f s = (ok tt, record s { context = f s.context })

module _ {W A B : Type 0} where
  unfoldable pub continue : Result ExecError A → (A → Exec W B) → Exec W B
  continue (ok a) f s = f a s
  continue (err e) f s = (err e, s)

  infixl 5 ◌>>=◌
  unfoldable pub ◌>>=◌ : Exec W A → (A → Exec W B) → Exec W B
  unfolding continue
  ◌>>=◌ m f s = let (r, s') = m s in continue r f s'

module _ {W B : Type 0} where
  infixl 5 ◌>>◌
  abbrev pub ◌>>◌ : Exec W (Unit {0}) → Exec W B → Exec W B
  m >> n = m >>= λ _. n

module _ {ν} {W A B : Type 0} {P : Type ν} where
  continue-elim :
      (r : Result ExecError A) (u : Machine W) (f : A → Exec W B) {b : B} {t : Machine W}
      → continue r f u ≡ (ok b, t)
      → ((a : A) → r ≡ ok a → f a u ≡ (ok b, t) → P)
      → P
  unfolding continue
  continue-elim (ok a) u f h k = k a refl h
  continue-elim (err e) u f h k = cc

  -- What a successful chain went through, handed to the rest of a proof.
  pub bind-elim :
      (m : Exec W A) (f : A → Exec W B) {s : Machine W} {b : B} {t : Machine W}
      → (m >>= f) s ≡ (ok b, t)
      → ((a : A) (u : Machine W) → m s ≡ (ok a, u) → f a u ≡ (ok b, t) → P)
      → P
  unfolding ◌>>=◌
  bind-elim m f {s} h k =
      continue-elim (m s).0 (m s).1 f h λ a e g. k a (m s).1 (ap (λ r. (r, (m s).1)) e) g

module _ {W A B : Type 0} where
  pub bind_step :
      (m : Exec W A) (f : A → Exec W B) {s u : Machine W} {a : A}
      → m s ≡ (ok a, u)
      → (m >>= f) s ≡ f a u
  unfolding ◌>>=◌
  bind_step m f h = rw h
