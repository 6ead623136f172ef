-- ===== src/Accounts/Login/Answers.antt =====
-- What the replies of `login_totp` leave of a count of compared codes.
use qdrust.Base.{
  ℕ, suc, ◌<◌, leb, Text, true, false, Option, none, some, List, map, Result, ok, err, ◌≡◌, arith,
  inl, inr, Bool-cases,
}
use qdrust.Accounts.{User, StoreError, Challenge, Accounts, create_session, get_user}
use qdrust.Accounts.Factor.{count_attempt, record_totp_attempt, delete_totp_challenge}
use qdrust.Accounts.Login.{
  totp_max_attempts, Site, Answer, answer_with, finish_for, issued, issue_session_response,
}
use qdrust.Accounts.Login.Rows.{
  Counted, RowsKept, Kept, All-keep_if, without-Counted, count_attempt-Counted, one_more, few_first,
  create_session-same,
}

module _ (site : Site) where
  issue-same :
      (P : List Challenge → ℕ → Type 0) (id : ℕ) (session csrf : Text) (now : ℕ) (a : Accounts)
      → P a.challenges a.next_challenge
      → (let b = (issue_session_response site id session csrf now a).1 in
          P b.challenges b.next_challenge)
  unfolding issue_session_response
  issue-same P id session csrf now a h =
      issued_lem (create_session site.token_hash id site.session_ttl session csrf now a)
        (create_session-same P site.token_hash id site.session_ttl session csrf now a h)
    where
      issued_lem :
          (r : Result StoreError (Unit {0}) × Accounts)
          → P r.1.challenges r.1.next_challenge
          → (let b = (issued site id r).1 in P b.challenges b.next_challenge)
      issued_lem (ok _, b) k = k
      issued_lem (err e, b) k = k

  pub issue-Kept :
      (c n id : ℕ) (session csrf : Text) (now : ℕ) (a : Accounts)
      → Kept c n a
      → Kept c n (issue_session_response site id session csrf now a).1
  unfolding Kept
  issue-Kept c n id session csrf now a h = issue-same (RowsKept c n) id session csrf now a h

  pub finish-same :
      (P : List Challenge → ℕ → Type 0) (user : Option User) (w : Answer) (a : Accounts)
      → P a.challenges a.next_challenge
      → (let b = (finish_for site user w a).1 in P b.challenges b.next_challenge)
  unfolding finish_for
  finish-same P none w a h = h
  finish-same P (some u) w a h = elim (Bool-cases u.disabled) [
    | inl e ↦ rw e h
    | inr e ↦ rw e (issue-same P u.id w.session w.csrf w.now a h)
  ]

  pub delete-Kept : (c n id : ℕ) (a : Accounts) → Kept c n a → Kept c n (delete_totp_challenge id a)
  unfolding delete_totp_challenge Kept
  delete-Kept c n id a (p, q, h) = (p, q, All-keep_if (Counted c n) _ a.challenges h)

  finish-Kept :
      (c n : ℕ) (user : Option User) (w : Answer) (a : Accounts)
      → Kept c n a
      → Kept c n (finish_for site user w a).1
  unfolding Kept
  finish-Kept c n user w a h = finish-same (RowsKept c n) user w a h

  -- A right code takes all rows of the challenge, a wrong one counts.
  pub right-Kept :
      (c n : ℕ) (r : Challenge) (w : Answer) (a : Accounts)
      → Kept c n a
      → Kept c n (answer_with site (ok true) w r a).1
  unfolding answer_with
  right-Kept c n r w a h = finish-Kept c n _ w _ (delete-Kept c n r.id a h)

  pub wrong_other :
      (c n : ℕ) (r : Challenge) (w : Answer) (a : Accounts)
      → Kept c n a
      → Kept c n (answer_with site (ok false) w r a).1
  unfolding answer_with record_totp_attempt delete_totp_challenge Kept
  wrong_other c n r w a (p, q, h) =
      let rows = count_attempt-Counted c n r.id a.challenges h in
      elim (Bool-cases (leb totp_max_attempts (record_totp_attempt r.id a).0)) [
        | inl e ↦ rw e (p, q, All-keep_if (Counted c n) _ _ rows)
        | inr e ↦ rw e (p, q, rows)
      ]

  pub compared_right :
      (c n : ℕ) (r : Challenge) (w : Answer) (a : Accounts)
      → r.id ≡ c
      → n < 5
      → Kept c n a
      → Kept c (suc n) (answer_with site (ok true) w r a).1
  unfolding answer_with delete_totp_challenge Kept
  compared_right c n r w a e few (p, q, h) =
      finish-Kept c (suc n) (get_user r.user_id (delete_totp_challenge r.id a)) w
        (delete_totp_challenge r.id a)
        (omega (arith, few), q, rw e (without-Counted c (suc n) a.challenges))

  pub compared_wrong :
      (c n : ℕ) (r : Challenge) (w : Answer) (a : Accounts)
      → r.id ≡ c
      → n < 5
      → Kept c n a
      → Kept c (suc n) (answer_with site (ok false) w r a).1
  unfolding answer_with record_totp_attempt delete_totp_challenge Kept
  compared_wrong c n r w a e few (p, q, h) =
      let rows = one_more c n a.challenges h in
      elim (Bool-cases (leb totp_max_attempts (record_totp_attempt c a).0)) [
        | inl f ↦
            rw (e, f)
              (
                omega (arith, few),
                q,
                without-Counted c (suc n) (map (count_attempt c) a.challenges),
              )
        | inr f ↦
            rw (e, f)
              (
                omega (arith, few),
                q,
                few_first c (suc n) (map (count_attempt c) a.challenges) (ground (arith, f)) rows,
              )
      ]
