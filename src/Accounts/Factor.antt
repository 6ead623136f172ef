-- ===== src/Accounts/Factor.antt =====
-- The second factor of crates/qdrust-server/src/store.rs: the secret of a user, and the logins that
-- wait for a code.
use qdrust.Base.{
  ℕ, suc, ◌==◌, ltb, Text, text_eq, Bool, true, false, not, ◌&&◌, any, keep_if, is_some, Option,
  none, some, [], ◌∷◌, ◌++◌, map, if◌then◌else◌,
}
use qdrust.Accounts.{User, Challenge, Accounts, first_where, has_id, get_user, update_users}

pub record UserTotp : Type 0 where
  pub secret : Option Text
  pub enabled : Bool

to_totp : Option User → Option UserTotp
to_totp none = none
to_totp (some u) = some (record { secret = u.totp_secret; enabled = u.totp_enabled })

unfoldable pub user_totp : ℕ → Accounts → Option UserTotp
unfolding to_totp get_user
user_totp id a = to_totp (get_user id a)

unfoldable pub set_user_totp_secret : ℕ → Text → Accounts → Bool × Accounts
unfolding has_id update_users
set_user_totp_secret id secret a = (
  any (has_id id) a.users,
  record a {
    users = update_users (has_id id) (λ u. record u { totp_secret = some secret }) a.users;
  },
)

unfoldable pub enable_user_totp : ℕ → Accounts → Bool × Accounts
unfolding has_id update_users
enable_user_totp id a =
    let staged = λ (u : User). has_id id u && is_some u.totp_secret in
    (
      any staged a.users,
      record a { users = update_users staged (λ u. record u { totp_enabled = true }) a.users },
    )

unfoldable pub delete_totp_challenges_for_user : ℕ → Accounts → Accounts
delete_totp_challenges_for_user id a = record a {
  challenges = keep_if (λ c. not (c.user_id == id)) a.challenges;
}

unfoldable pub disable_user_totp : ℕ → Accounts → Bool × Accounts
unfolding delete_totp_challenges_for_user has_id update_users
disable_user_totp id a =
    let b = delete_totp_challenges_for_user id a in
    (
      any (has_id id) b.users,
      record b {
        users =
            update_users (has_id id) (λ u. record u { totp_secret = none; totp_enabled = false })
              b.users;
      },
    )

-- The id is the next of the table's.
unfoldable pub create_totp_challenge : ℕ → Text → ℕ → Accounts → Accounts
create_totp_challenge id hash expires a = record a {
  challenges =
      a.challenges
      ++ record {
        id = a.next_challenge;
        user_id = id;
        token_hash = hash;
        attempts = 0;
        expires_at = expires;
      }
        ∷ [];
  next_challenge = suc a.next_challenge;
}

unfoldable pub totp_challenge_by_hash : Text → Accounts → Option Challenge
unfolding first_where
totp_challenge_by_hash hash a = first_where (λ c. text_eq c.token_hash hash) a.challenges

unfoldable pub is_challenge : ℕ → Challenge → Bool
is_challenge id c = c.id == id

unfoldable pub count_attempt : ℕ → Challenge → Challenge
unfolding is_challenge
count_attempt id c = if is_challenge id c then record c { attempts = suc c.attempts } else c

unfoldable pub attempts_of : Option Challenge → ℕ
attempts_of none = 0
attempts_of (some c) = c.attempts

unfoldable pub record_totp_attempt : ℕ → Accounts → ℕ × Accounts
unfolding count_attempt is_challenge first_where attempts_of
record_totp_attempt id a =
    let counted = map (count_attempt id) a.challenges in
    (attempts_of (first_where (is_challenge id) counted), record a { challenges = counted })

unfoldable pub delete_totp_challenge : ℕ → Accounts → Accounts
unfolding is_challenge
delete_totp_challenge id a = record a {
  challenges = keep_if (λ c. not (is_challenge id c)) a.challenges;
}

unfoldable pub purge_expired_totp_challenges : ℕ → Accounts → Accounts
purge_expired_totp_challenges before a = record a {
  challenges = keep_if (λ c. not (ltb c.expires_at before)) a.challenges;
}
