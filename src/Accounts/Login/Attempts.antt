-- ===== src/Accounts/Login/Attempts.antt =====
-- How many codes `login_totp` of crates/qdrust-server/src/api.rs compares for one challenge, whatever
-- else is done with the logins in between.
use qdrust.Base.{
  ℕ, suc, ◌+◌, ◌≤◌, ◌<◌, ◌==◌, leb, Text, Bool, true, false, not, ◌&&◌, Option, none, some, List,
  [], ◌∷◌, All, All-snoc, Result, ok, err, if◌then◌else◌, ◌≡◌, refl, arith, inl, inr, Bool-cases,
  ==→eq,
}
use qdrust.Accounts.{User, Challenge, Accounts}
use qdrust.Accounts.Factor.{
  user_totp, create_totp_challenge, totp_challenge_by_hash, purge_expired_totp_challenges,
  disable_user_totp, delete_totp_challenges_for_user,
}
use qdrust.Accounts.Login.{
  Site, Answer, first_factor, answer_with, answer_challenge, check_code, secret_of, needs_code,
  login_totp,
}
use qdrust.Accounts.Login.Answers.{
  issue-Kept, delete-Kept, right-Kept, wrong_other, compared_right, compared_wrong,
}
use qdrust.Accounts.Login.Rows.{Counted, Kept, All-keep_if, first_where-All}
use qdrust.Otp.Base32.{OtpError}
use qdrust.Otp.Code.{verify}

-- What is done with the logins that wait for a code: a code is sent, a password has fitted, the
-- expired are purged, a user turns the second factor off.
pub data Act : Type 0 where
  answer : Answer → Act
  password : Option User → Text → Text → Text → ℕ → Act
  purge : ℕ → Act
  disable : ℕ → Act

is_ok : Result OtpError Bool → Bool
is_ok (ok b) = true
is_ok (err e) = false

module _ (site : Site) where
  judged : Option Text → Answer → Bool
  unfolding is_ok verify
  judged none w = false
  judged (some secret) w = is_ok (verify site.hmac secret w.code w.now)

  compares_for : ℕ → Option Challenge → Answer → Accounts → Bool
  unfolding judged secret_of user_totp
  compares_for c none w a = false
  compares_for c (some r) w a =
      not (leb r.expires_at w.now) && judged (secret_of (user_totp r.user_id a)) w && r.id == c

  -- Whether the code is compared with those of the secret, for the challenge with this id.
  compares : ℕ → Act → Accounts → Bool
  unfolding compares_for totp_challenge_by_hash
  compares c (answer w) a =
      site.local_login_enabled
      && compares_for c (totp_challenge_by_hash (site.token_hash w.challenge) a) w a
  compares c act a = false

  play : Act → Accounts → Accounts
  unfolding login_totp first_factor purge_expired_totp_challenges disable_user_totp
  play (answer w) a = (login_totp site w a).1
  play (password user challenge session csrf now) a =
      (first_factor site user challenge session csrf now a).1
  play (purge before) a = purge_expired_totp_challenges before a
  play (disable id) a = (disable_user_totp id a).1

  count_if : Bool → ℕ → ℕ
  count_if b n = if b then suc n else n

  unfoldable pub compared : ℕ → List Act → Accounts → ℕ
  unfolding count_if compares play
  compared c [] a = 0
  compared c (act ∷ acts) a = count_if (compares c act a) (compared c acts (play act a))

  verdict-Kept :
      (c n : ℕ) (v : Result OtpError Bool) (r : Challenge) (w : Answer) (a : Accounts)
      → Counted c n r
      → Kept c n a
      → Kept c (count_if (is_ok v && r.id == c) n) (answer_with site v w r a).1
  unfolding answer_with Counted count_if is_ok
  verdict-Kept c n (err e) r w a counted h = h
  verdict-Kept c n (ok true) r w a counted h = elim (Bool-cases (r.id == c)) [
    | inl e ↦
        (let same = ==→eq r.id c e in rw e (compared_right site c n r w a same (counted same).1 h))
    | inr e ↦ rw e (right-Kept site c n r w a h)
  ]
  verdict-Kept c n (ok false) r w a counted h = elim (Bool-cases (r.id == c)) [
    | inl e ↦
        (let same = ==→eq r.id c e in rw e (compared_wrong site c n r w a same (counted same).1 h))
    | inr e ↦ rw e (wrong_other site c n r w a h)
  ]

  check-Kept :
      (c n : ℕ) (secret : Option Text) (r : Challenge) (w : Answer) (a : Accounts)
      → Counted c n r
      → Kept c n a
      → Kept c (count_if (judged secret w && r.id == c) n) (check_code site secret w r a).1
  unfolding check_code count_if judged
  check-Kept c n none r w a counted h = h
  check-Kept c n (some secret) r w a counted h =
      verdict-Kept c n (verify site.hmac secret w.code w.now) r w a counted h

  challenge-Kept :
      (c n : ℕ) (o : Option Challenge) (w : Answer) (a : Accounts)
      → ((r : Challenge) → o ≡ some r → Counted c n r)
      → Kept c n a
      → Kept c (count_if (compares_for c o w a) n) (answer_challenge site o w a).1
  unfolding answer_challenge count_if compares_for
  challenge-Kept c n none w a counted h = h
  challenge-Kept c n (some r) w a counted h = elim (Bool-cases (leb r.expires_at w.now)) [
    | inl e ↦ rw e (delete-Kept site c n r.id a h)
    | inr e ↦ rw e (check-Kept c n (secret_of (user_totp r.user_id a)) r w a (counted r refl) h)
  ]

  answer-Kept :
      (c n : ℕ) (w : Answer) (a : Accounts)
      → Kept c n a
      → Kept c (count_if (compares c (answer w) a) n) (play (answer w) a)
  unfolding compares play login_totp count_if totp_challenge_by_hash Kept compares_for judged
  answer-Kept c n w a (p, q, h) = elim (Bool-cases site.local_login_enabled) [
    | inl e ↦ rw e (
        challenge-Kept c n (totp_challenge_by_hash (site.token_hash w.challenge) a) w a
          (λ r f. (first_where-All (Counted c n) _ a.challenges h f).0) (p, q, h))
    | inr e ↦ rw e (p, q, h)
  ]

  password-Kept :
      (c n : ℕ) (user : Option User) (challenge session csrf : Text) (now : ℕ) (a : Accounts)
      → Kept c n a
      → Kept c n (first_factor site user challenge session csrf now a).1
  unfolding first_factor create_totp_challenge Kept Counted
  password-Kept c n none challenge session csrf now a h = h
  password-Kept c n (some user) challenge session csrf now a (p, q, h) =
      elim (Bool-cases (needs_code (user_totp user.id a))) [
        | inl e ↦ rw e (
          p,
          omega (arith, q),
          All-snoc (Counted c n) a.challenges _ h (λ f. absurd (omega (arith, f, q))),
        )
        | inr e ↦ rw e (issue-Kept site c n user.id session csrf now a (p, q, h))
      ]

  act-Kept :
      (c n : ℕ) (act : Act) (a : Accounts)
      → Kept c n a
      → Kept c (count_if (compares c act a) n) (play act a)
  unfolding compares play count_if disable_user_totp delete_totp_challenges_for_user
      purge_expired_totp_challenges Kept
  act-Kept c n (answer w) a h = answer-Kept c n w a h
  act-Kept c n (password user challenge session csrf now) a h =
      password-Kept c n user challenge session csrf now a h
  act-Kept c n (purge before) a (p, q, h) = (p, q, All-keep_if (Counted c n) _ a.challenges h)
  act-Kept c n (disable id) a (p, q, h) = (p, q, All-keep_if (Counted c n) _ a.challenges h)

  moved : (b : Bool) (m n : ℕ) → m + count_if b n ≤ 5 → count_if b m + n ≤ 5
  unfolding count_if
  moved true m n h = omega (arith, h)
  moved false m n h = h

  compared-Kept :
      (c n : ℕ) (acts : List Act) (a : Accounts) → Kept c n a → compared c acts a + n ≤ 5
  unfolding compared Kept
  compared-Kept c n [] a h = omega (arith, h.0)
  compared-Kept c n (act ∷ acts) a h =
      let rest =
        compared-Kept c (count_if (compares c act a) n) acts (play act a) (act-Kept c n act a h) in
      moved (compares c act a) (compared c acts (play act a)) n rest

  none-Counted : (c : ℕ) (rows : List Challenge) → All (Counted c 0) rows
  unfolding Counted
  none-Counted c [] = tt
  none-Counted c (r ∷ rows) = ((λ _. (omega arith, omega arith)), none-Counted c rows)

  -- For a challenge whose id has been given out, no more than five codes are ever compared,
  -- whatever codes, logins, purges and changes of the second factor follow, in any order.
  pub compared-le :
      (c : ℕ) (acts : List Act) (a : Accounts) → c < a.next_challenge → compared c acts a ≤ 5
  unfolding Kept
  compared-le c acts a h =
      omega (arith, compared-Kept c 0 acts a (omega arith, h, none-Counted c a.challenges))
