-- ===== src/Tests/Entries.antt =====
-- The accounts, on one user with a second factor.
use qdrust.Base.{
  ℕ, ◌≤◌, ◌<◌, Text, codes, starts_with, to_ascii_lowercase, keep_if, true, false, none, some, [],
  ◌∷◌, ok, ◌≡◌, ◌≢◌, refl, arith,
}
use qdrust.Accounts.{User, Challenge, Accounts, get_user, authenticate_session}
use qdrust.Accounts.Tickets.{consume_password_reset_token}
use qdrust.Accounts.Tickets.Resets.{user_of, password_of, consume_password_reset_token-revokes}
use qdrust.Accounts.Factor.{user_totp, totp_challenge_by_hash}
use qdrust.Accounts.Login.{Site, Answer, entered, secret_of, login_totp}
use qdrust.Accounts.Login.Attempts.{Act, answer, purge, compared, compared-le}
use qdrust.Accounts.Login.Entry.{IsGone, login_totp-entered}
use qdrust.Base.Decimal.{to_string}
use qdrust.Otp.Base32.{is_kept, decode_base32}
use qdrust.Otp.Code.Window.{Near, login_code}
use qdrust.Tests.Logins.{secret, digest, digest-IsLong}

abbrev marked : Text → Text
marked t = 0 ∷ t

abbrev site : Site
site = record { token_hash = marked; hmac = digest; local_login_enabled = true; session_ttl = 3600 }

abbrev user : User
user = record {
  id = 7;
  password_hash = codes "$argon2id$old";
  disabled = false;
  session_version = 2;
  email_verified = true;
  totp_secret = some secret;
  totp_enabled = true;
}

abbrev accounts : Accounts
accounts = record {
  users = user ∷ [];
  sessions =
      record {
        token_hash = marked (codes "old");
        user_id = 7;
        csrf_token_hash = marked (codes "csrf");
        session_version = 2;
        expires_at = 900;
      }
      ∷ [];
  resets = record { token_hash = marked (codes "mail"); user_id = 7; expires_at = 500 } ∷ [];
  verifications = [];
  challenges =
      record {
        id = 3;
        user_id = 7;
        token_hash = marked (codes "half");
        attempts = 0;
        expires_at = 300;
      }
      ∷ [];
  next_challenge = 4;
}

abbrev send : Text → Answer
send code = record {
  challenge = codes "half";
  code = code;
  now = 59;
  session = codes "new";
  csrf = codes "csrf";
}

abbrev wrong : Act
wrong = answer (send (codes "000000"))

-- The challenge is gone after the fifth wrong code, so the sixth is not compared.
compared_six : compared site 3 (wrong ∷ wrong ∷ wrong ∷ wrong ∷ wrong ∷ wrong ∷ []) accounts ≡ 5
unfolding compared decode_base32 to_ascii_lowercase to_string
compared_six = refl

compared-le_example :
    compared site 3 (wrong ∷ purge 40 ∷ answer (send (codes "595 078")) ∷ wrong ∷ []) accounts ≤ 5
compared-le_example =
    compared-le site 3 (wrong ∷ purge 40 ∷ answer (send (codes "595 078")) ∷ wrong ∷ []) accounts
      (omega arith)

entered_now : (login_totp site (send (codes "595 078")) accounts).0 ≡ ok (entered 7)
unfolding login_totp decode_base32 to_ascii_lowercase to_string
entered_now = refl

login_totp-entered_example :
    (r : Challenge) × (totp_challenge_by_hash (marked (codes "half")) accounts ≡ some r)
    × (r.user_id ≡ 7)
    × (59 < r.expires_at)
    × ((key : Text) × (t : ℕ) × (secret_of (user_totp 7 accounts) ≡ some key)
        × Near t 59
        × (login_code digest key t ≡ ok (keep_if is_kept (codes "595 078"))))
    × IsGone r.id (login_totp site (send (codes "595 078")) accounts).1.challenges
login_totp-entered_example =
    login_totp-entered site (send (codes "595 078")) accounts 7 digest-IsLong entered_now

reset_done :
    (consume_password_reset_token marked (codes "mail") (codes "$argon2id$new") 400 accounts).0
    ≡ ok (some 7)
unfolding consume_password_reset_token starts_with
reset_done = refl

consume_password_reset_token-revokes_example :
    (let b =
        (consume_password_reset_token marked
          (codes "mail")
          (codes "$argon2id$new")
          400
          accounts).1 in
      (password_of (get_user 7 b) ≡ some (codes "$argon2id$new"))
      × (user_of (authenticate_session marked (codes "old") 450 b) ≢ some 7)
      × (consume_password_reset_token marked (codes "mail") (codes "$argon2id$x") 450 b
          ≡ (ok none, b)))
consume_password_reset_token-revokes_example =
    consume_password_reset_token-revokes marked (codes "mail") (codes "$argon2id$new") 400 accounts
      7 user (codes "old") (codes "$argon2id$x") 450 (unfold get_user in refl) refl reset_done
