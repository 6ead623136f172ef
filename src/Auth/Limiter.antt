-- ===== src/Auth/Limiter.antt =====
-- `LoginRateLimiter` of crates/qdrust-server/src/auth.rs, and the part of `login` in api.rs that
-- calls it. An instant is a number, and a duration into the future is 0.
pub mod Bounds
use qdrust.Base.{
  ℕ, ◌+◌, ◌-◌, ◌^◌, leb, ltb, min, Text, trim, to_ascii_lowercase, Bool, true, false, Option, none,
  some, List, [], ◌∷◌, if◌then◌else◌,
}
use qdrust.Base.Dict.{Dict, lookup, insert, insert_new, remove}

pub record AttemptWindow : Type 0 where
  pub started : ℕ
  pub failures : ℕ

pub record Limiter : Type 0 where
  pub max_attempts : ℕ
  pub window : ℕ

-- `LoginRateLimiter::new`
unfoldable pub new_limiter : ℕ → ℕ → Option Limiter
new_limiter max_attempts window =
    if leb 1 max_attempts
    then if leb 1 window
      then some (record { max_attempts = max_attempts; window = window })
      else none
    else none

-- What `login` finds: the password fits an enabled account, it does not, or it does and the account's
-- address is not verified where it has to be.
pub data Login : Type 0 where
  accepted rejected unverified : Login

abbrev pub State : Type 0
State = Dict AttemptWindow

abbrev pub u32_max : ℕ
u32_max = 2 ^ 32 - 1

module _ (l : Limiter) (key : Text) (now : ℕ) where
  unfoldable pub is_over : AttemptWindow → Bool
  is_over w = leb l.window (now - w.started)

  allowed_by : Option AttemptWindow → State → Bool × State
  unfolding is_over
  allowed_by none s = (true, s)
  allowed_by (some w) s =
      if is_over w then (true, remove key s) else (ltb w.failures l.max_attempts, s)

  unfoldable pub allowed : State → Bool × State
  unfolding allowed_by
  allowed s = allowed_by (lookup key s) s

  fresh : AttemptWindow
  fresh = record { started = now; failures = 0 }

  -- The window that counts this failure: the entry, unless there is none or it is over.
  current : Option AttemptWindow → AttemptWindow
  unfolding fresh is_over
  current none = fresh
  current (some w) = if is_over w then fresh else w

  unfoldable pub record_failure : State → State
  unfolding current
  record_failure s =
      let w = current (lookup key s) in
      insert key (record w { failures = min u32_max (w.failures + 1) }) s

  unfoldable pub record_success : State → State
  record_success s = remove key s

  settle : Login → State → State
  unfolding record_failure record_success
  settle accepted s = record_success s
  settle rejected s = record_failure s
  settle unverified s = s

  -- `login`, with what its tests find: whether they were made, and the state.
  unfoldable pub attempt : Login → State → Bool × State
  unfolding allowed settle
  attempt found s = let (free, t) = allowed s in if free then (true, settle found t) else (false, t)

unfoldable pub rate_key : Text → Text
unfolding trim to_ascii_lowercase
rate_key username = to_ascii_lowercase (trim username)
