-- ===== src/Accounts.antt =====
-- crates/qdrust-server/src/store.rs: accounts with their sessions, one-time tokens and half-made
-- logins. A method is one step, also where the source makes several statements without a
-- transaction; the clock, and a token that is drawn, are arguments. Only the hash of a token is stored. The number of rows that a purge deletes is left out.
pub mod Tickets
pub mod Factor
pub mod Login
use qdrust.Base.{
  ℕ, suc, ◌+◌, ◌-◌, ◌^◌, ◌==◌, leb, ltb, Text, text_eq, codes, starts_with, Bool, true, false, not,
  ◌&&◌, any, keep_if, is_some, is_empty, Option, none, some, List, [], ◌∷◌, ◌++◌, map, Result, ok,
  err, if◌then◌else◌,
}

-- The columns of a user that these methods read or write.
pub record User : Type 0 where
  pub id : ℕ
  pub password_hash : Text
  pub disabled : Bool
  pub session_version : ℕ
  pub email_verified : Bool
  pub totp_secret : Option Text
  pub totp_enabled : Bool

pub record Session : Type 0 where
  pub token_hash : Text
  pub user_id : ℕ
  pub csrf_token_hash : Text
  pub session_version : ℕ
  pub expires_at : ℕ

-- A row of `password_reset_tokens` or of `email_verification_tokens`.
pub record Ticket : Type 0 where
  pub token_hash : Text
  pub user_id : ℕ
  pub expires_at : ℕ

pub record Challenge : Type 0 where
  pub id : ℕ
  pub user_id : ℕ
  pub token_hash : Text
  pub attempts : ℕ
  pub expires_at : ℕ

pub record Accounts : Type 0 where
  pub users : List User
  pub sessions : List Session
  pub resets : List Ticket
  pub verifications : List Ticket
  pub challenges : List Challenge
  pub next_challenge : ℕ

pub data StoreError : Type 0 where
  zero_ttl user_not_found user_disabled ttl_too_large expiry_overflow invalid_hash : StoreError

abbrev pub i64_max : ℕ
i64_max = 2 ^ 63 - 1

-- `fetch_optional`: the first row that passes the test.
unfoldable pub first_where {ℓ} : {A : Type ℓ} → (A → Bool) → List A → Option A
first_where test [] = none
first_where test (x ∷ xs) = if test x then some x else first_where test xs

unfoldable pub has_id : ℕ → User → Bool
has_id id u = u.id == id

unfoldable pub get_user : ℕ → Accounts → Option User
unfolding first_where has_id
get_user id a = first_where (has_id id) a.users

unfoldable pub update_users : (User → Bool) → (User → User) → List User → List User
update_users test change users = map (λ u. if test u then change u else u) users

unfoldable pub is_active : ℕ → User → Bool
is_active id u = u.id == id && not u.disabled

unfoldable pub of_user : ℕ → Session → Bool
of_user id s = s.user_id == id

insert_session :
    Option User → Text → Text → ℕ → ℕ → Accounts → Result StoreError (Unit {0}) × Accounts
insert_session none session csrf ttl now a = (err user_not_found, a)
insert_session (some u) session csrf ttl now a =
    if u.disabled
    then (err user_disabled, a)
    else if ltb i64_max ttl
    then (err ttl_too_large, a)
    else if ltb i64_max (now + ttl)
    then (err expiry_overflow, a)
    else (
      ok tt,
      record a {
        sessions =
            a.sessions
            ++ record {
              token_hash = session;
              user_id = u.id;
              csrf_token_hash = csrf;
              session_version = u.session_version;
              expires_at = now + ttl;
            }
              ∷ [];
      },
    )

unfoldable pub with_password : Text → User → User
with_password hash u = record u { password_hash = hash; session_version = suc u.session_version }

-- Whether a row was changed; nothing else is changed where none was.
unfoldable pub change_password : ℕ → Text → Accounts → Result StoreError Bool × Accounts
unfolding is_active with_password update_users of_user
change_password id hash a =
    if not (starts_with (codes "$argon2id$") hash)
    then (err invalid_hash, a)
    else if not (any (is_active id) a.users)
    then (ok false, a)
    else (
      ok true,
      record a {
        users = update_users (is_active id) (with_password hash) a.users;
        sessions = keep_if (λ s. not (of_user id s)) a.sessions;
      },
    )

unfoldable pub revoke_all_sessions : ℕ → Accounts → Accounts
unfolding has_id update_users of_user
revoke_all_sessions id a = record a {
  users =
      update_users (has_id id) (λ u. record u { session_version = suc u.session_version }) a.users;
  sessions = keep_if (λ s. not (of_user id s)) a.sessions;
}

unfoldable pub purge_expired_sessions : ℕ → Accounts → Accounts
purge_expired_sessions now a = record a {
  sessions = keep_if (λ s. ltb now s.expires_at) a.sessions;
}

-- `token_hash` of auth.rs, a cryptographic hash, is a parameter.
module _ (token_hash : Text → Text) where
  unfoldable pub create_session :
      ℕ → ℕ → Text → Text → ℕ → Accounts → Result StoreError (Unit {0}) × Accounts
  unfolding insert_session get_user
  create_session id ttl session csrf now a =
      if ttl == 0
      then (err zero_ttl, a)
      else insert_session (get_user id a) (token_hash session) (token_hash csrf) ttl now a

  unfoldable pub lives : Text → ℕ → List User → Session → Bool
  unfolding has_id
  lives session now users s =
      text_eq s.token_hash (token_hash session)
      && ltb now s.expires_at
      && any (λ u. has_id s.user_id u && u.session_version == s.session_version && not u.disabled)
          users

  -- The session that a token stands for, where the join with the users has a row.
  unfoldable pub authenticate_session : Text → ℕ → Accounts → Option Session
  unfolding first_where lives
  authenticate_session session now a = first_where (lives session now a.users) a.sessions

  is_sent : Text → Session → Bool
  is_sent session s = text_eq s.token_hash (token_hash session)

  unfoldable pub revoke_session : Text → Accounts → Bool × Accounts
  unfolding is_sent
  revoke_session session a = (
    any (is_sent session) a.sessions,
    record a { sessions = keep_if (λ s. not (is_sent session s)) a.sessions },
  )

  unfoldable pub rotate_csrf : Text → Text → Accounts → Bool × Accounts
  unfolding is_sent
  rotate_csrf session csrf_hash a = (
    any (is_sent session) a.sessions,
    record a {
      sessions =
          map
            (λ (s : Session).
              if is_sent session s then record s { csrf_token_hash = csrf_hash } else s)
            a.sessions;
    },
  )
