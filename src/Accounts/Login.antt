-- ===== src/Accounts/Login.antt =====
-- `login` of crates/qdrust-server/src/api.rs, from the user whose password fitted on, and
-- `login_totp`. Tokens that are drawn, the seconds that a session lives and the clock are arguments;
-- the entries of the audit log are left out.
mod Rows
mod Answers
pub mod Attempts
pub mod Entry
use qdrust.Base.{
  ℕ, ◌+◌, leb, Text, Bool, true, false, Option, none, some, List, Result, ok, err, if◌then◌else◌,
}
use qdrust.Accounts.{User, Challenge, Accounts, StoreError, get_user, create_session}
use qdrust.Accounts.Factor.{
  UserTotp, user_totp, create_totp_challenge, totp_challenge_by_hash, record_totp_attempt,
  delete_totp_challenge,
}
use qdrust.Otp.Base32.{OtpError}
use qdrust.Otp.Code.{Hash, verify}

abbrev pub totp_challenge_ttl_secs : ℕ
totp_challenge_ttl_secs = 300

abbrev pub totp_max_attempts : ℕ
totp_max_attempts = 5

pub data LoginError : Type 0 where
  local_login_disabled invalid_credentials invalid_totp_code totp_challenge_expired
        account_disabled :
      LoginError
  bad_code : OtpError → LoginError
  bad_store : StoreError → LoginError

-- A session of this user, or a challenge that is good until this second.
pub data Reply : Type 0 where
  entered : ℕ → Reply
  totp_required : ℕ → Reply

-- `TotpLogin`, with the clock and the two tokens that a session would have.
pub record Answer : Type 0 where
  pub challenge : Text
  pub code : Text
  pub now : ℕ
  pub session : Text
  pub csrf : Text

needs_code : Option UserTotp → Bool
needs_code none = false
needs_code (some totp) = totp.enabled

unfoldable pub secret_of : Option UserTotp → Option Text
secret_of none = none
secret_of (some totp) = totp.secret

-- What the handlers take from elsewhere: `token_hash` of auth.rs and the hash of the codes, which are
-- cryptographic, whether passwords are taken at all, and the seconds that a session lives.
pub record Site : Type 0 where
  pub token_hash : Text → Text
  pub hmac : Hash → List ℕ → List ℕ → List ℕ
  pub local_login_enabled : Bool
  pub session_ttl : ℕ

module _ (site : Site) where
  issued : ℕ → Result StoreError (Unit {0}) × Accounts → Result LoginError Reply × Accounts
  issued id (ok _, a) = (ok (entered id), a)
  issued id (err e, a) = (err (bad_store e), a)

  unfoldable pub issue_session_response :
      ℕ → Text → Text → ℕ → Accounts → Result LoginError Reply × Accounts
  unfolding issued create_session
  issue_session_response id session csrf now a =
      issued id (create_session site.token_hash id site.session_ttl session csrf now a)

  unfoldable pub first_factor :
      Option User → Text → Text → Text → ℕ → Accounts → Result LoginError Reply × Accounts
  unfolding needs_code user_totp create_totp_challenge issue_session_response
  first_factor none challenge session csrf now a = (err invalid_credentials, a)
  first_factor (some user) challenge session csrf now a =
      let expires = now + totp_challenge_ttl_secs in
      let waiting = create_totp_challenge user.id (site.token_hash challenge) expires a in
      if needs_code (user_totp user.id a)
      then (ok (totp_required expires), waiting)
      else issue_session_response user.id session csrf now a

  pub finish_for : Option User → Answer → Accounts → Result LoginError Reply × Accounts
  unfolding issue_session_response
  finish_for none w a = (err invalid_totp_code, a)
  finish_for (some user) w a =
      if user.disabled
      then (err account_disabled, a)
      else issue_session_response user.id w.session w.csrf w.now a

  -- What is done with the verdict on a code; a code that is no six digits is not counted.
  unfoldable pub answer_with :
      Result OtpError Bool → Answer → Challenge → Accounts → Result LoginError Reply × Accounts
  unfolding record_totp_attempt delete_totp_challenge finish_for get_user
  answer_with (err e) w c a = (err (bad_code e), a)
  answer_with (ok false) w c a =
      let (attempts, b) = record_totp_attempt c.id a in
      let burned = delete_totp_challenge c.id b in
      (err invalid_totp_code, if leb totp_max_attempts attempts then burned else b)
  answer_with (ok true) w c a =
      let b = delete_totp_challenge c.id a in finish_for (get_user c.user_id b) w b

  check_code : Option Text → Answer → Challenge → Accounts → Result LoginError Reply × Accounts
  unfolding answer_with verify
  check_code none w c a = (err invalid_totp_code, a)
  check_code (some secret) w c a = answer_with (verify site.hmac secret w.code w.now) w c a

  answer_challenge : Option Challenge → Answer → Accounts → Result LoginError Reply × Accounts
  unfolding delete_totp_challenge check_code secret_of user_totp
  answer_challenge none w a = (err invalid_totp_code, a)
  answer_challenge (some c) w a =
      if leb c.expires_at w.now
      then (err totp_challenge_expired, delete_totp_challenge c.id a)
      else check_code (secret_of (user_totp c.user_id a)) w c a

  unfoldable pub login_totp : Answer → Accounts → Result LoginError Reply × Accounts
  unfolding answer_challenge totp_challenge_by_hash
  login_totp w a =
      if site.local_login_enabled
      then answer_challenge (totp_challenge_by_hash (site.token_hash w.challenge) a) w a
      else (err local_login_disabled, a)
