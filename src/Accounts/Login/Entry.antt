-- ===== src/Accounts/Login/Entry.antt =====
-- What a session that `login_totp` gives rests on: a challenge, its user's secret and a code.
use qdrust.Base.{
  ℕ, ◌<◌, ◌==◌, leb, Text, Bool, true, false, not, keep_if, Option, none, some, List, [], ◌∷◌, All,
  Result, ok, err, if◌then◌else◌, ◌≡◌, refl, sym, ap, subst, ◌∙◌, arith, inl, inr, Bool-cases,
  Option-cases, ==→eq,
}
use qdrust.Accounts.Login.Rows.{first_where-passes}
use qdrust.Accounts.{User, has_id, Challenge, Accounts, StoreError, get_user, create_session}
use qdrust.Accounts.Factor.{user_totp, totp_challenge_by_hash, is_challenge, delete_totp_challenge}
use qdrust.Accounts.Login.{
  local_login_disabled, Site, Answer, Reply, LoginError, entered, totp_required, finish_for,
  answer_with, answer_challenge, check_code, secret_of, issued, issue_session_response, login_totp,
}
use qdrust.Accounts.Login.Answers.{finish-same}
use qdrust.Otp.Base32.{OtpError, is_kept}
use qdrust.Otp.Code.{verify}
use qdrust.Otp.Code.Window.{IsLong, Near, login_code, verify-iff-code}

entered_id : Result LoginError Reply → ℕ
entered_id (ok (entered id)) = id
entered_id (ok (totp_required t)) = 0
entered_id (err e) = 0

abbrev pub IsGone : ℕ → List Challenge → Type 0
IsGone id rows = All (λ r. r.id ≡ id → ⊥) rows

delete-IsGone :
    (id : ℕ) (rows : List Challenge) → IsGone id (keep_if (λ r. not (is_challenge id r)) rows)
unfolding is_challenge
delete-IsGone id [] = tt
delete-IsGone id (r ∷ rows) = elim (Bool-cases (r.id == id)) [
  | inl e ↦ rw e (delete-IsGone id rows)
  | inr e ↦ rw e ((λ f. grind (arith, e, f)), delete-IsGone id rows)
]

has_id-eq : (id : ℕ) (u : User) → has_id id u ≡ true → u.id ≡ id
unfolding has_id
has_id-eq id u h = ==→eq u.id id h

module _ (site : Site) where
  issued-id :
      (id j : ℕ) (r : Result StoreError (Unit {0}) × Accounts)
      → (issued site j r).0 ≡ ok (entered id)
      → j ≡ id
  unfolding issued entered_id
  issued-id id j (ok u, b) h = ap entered_id h
  issued-id id j (err e, b) h = cc

  finish-id :
      (id j : ℕ) (w : Answer) (a : Accounts)
      → (finish_for site (get_user j a) w a).0 ≡ ok (entered id)
      → j ≡ id
  unfolding finish_for issue_session_response get_user
  finish-id id j w a h = elim (Option-cases (get_user j a)) [
    | inl e ↦ cc (rw (finish_for, e) at h)
    | inr (u, e) ↦ elim (Bool-cases u.disabled) [
      | inl f ↦ cc (rw (finish_for, e, f) at h)
      | inr f ↦
          (let same = has_id-eq j u (first_where-passes (has_id j) a.users e) in
            sym same
            ∙ issued-id id u.id
                (create_session site.token_hash u.id site.session_ttl w.session w.csrf w.now a)
                (rw (finish_for, e, f) at h))
    ]
  ]

  verdict_entered :
      (v : Result OtpError Bool) (w : Answer) (r : Challenge) (a : Accounts) (id : ℕ)
      → (answer_with site v w r a).0 ≡ ok (entered id)
      → (v ≡ ok true) × (r.user_id ≡ id) × IsGone r.id (answer_with site v w r a).1.challenges
  unfolding answer_with delete_totp_challenge
  verdict_entered (err e) w r a id h = cc
  verdict_entered (ok false) w r a id h = cc
  verdict_entered (ok true) w r a id h =
      let b = delete_totp_challenge r.id a in
      (
        refl,
        finish-id id r.user_id w b h,
        finish-same site (λ rows _. IsGone r.id rows) (get_user r.user_id b) w b
            (delete-IsGone r.id a.challenges),
      )

  check_entered :
      (s : Option Text) (w : Answer) (r : Challenge) (a : Accounts) (id : ℕ)
      → (check_code site s w r a).0 ≡ ok (entered id)
      → ((secret : Text) × (s ≡ some secret) × (verify site.hmac secret w.code w.now ≡ ok true))
        × (r.user_id ≡ id)
        × IsGone r.id (check_code site s w r a).1.challenges
  unfolding check_code
  check_entered none w r a id h = cc
  check_entered (some secret) w r a id h =
      let (right, same, gone) = verdict_entered (verify site.hmac secret w.code w.now) w r a id h in
      ((secret, refl, right), same, gone)

  challenge_entered :
      (o : Option Challenge) (w : Answer) (a : Accounts) (id : ℕ)
      → (answer_challenge site o w a).0 ≡ ok (entered id)
      → (r : Challenge) × (o ≡ some r)
        × (r.user_id ≡ id)
        × (w.now < r.expires_at)
        × ((secret : Text) × (secret_of (user_totp r.user_id a) ≡ some secret)
            × (verify site.hmac secret w.code w.now ≡ ok true))
        × IsGone r.id (answer_challenge site o w a).1.challenges
  unfolding answer_challenge
  challenge_entered none w a id h = cc
  challenge_entered (some r) w a id h = elim (Bool-cases (leb r.expires_at w.now)) [
    | inl e ↦ cc (rw e at h)
    | inr e ↦
        (let (found, same, gone) =
            check_entered (secret_of (user_totp r.user_id a)) w r a id (rw e at h) in
          (r, refl, same, ground (arith, e), found, rw e gone))
  ]

  open_to :
      (w : Answer) (a : Accounts)
      → site.local_login_enabled ≡ true
      → login_totp site w a
        ≡ answer_challenge site (totp_challenge_by_hash (site.token_hash w.challenge) a) w a
  unfolding login_totp
  open_to w a e =
      ap
        (λ b.
          if b
          then answer_challenge site (totp_challenge_by_hash (site.token_hash w.challenge) a) w a
          else (err local_login_disabled, a))
        e

  -- An account is entered by the second factor only with a challenge of its own that has not
  -- expired, and with a code that, without its spaces and dashes, is the one of its secret at a
  -- time whose step of 30 seconds is that of the clock or next to it; the challenge is then gone.
  pub login_totp-entered :
      (w : Answer) (a : Accounts) (id : ℕ)
      → IsLong site.hmac
      → (login_totp site w a).0 ≡ ok (entered id)
      → (r : Challenge) × (totp_challenge_by_hash (site.token_hash w.challenge) a ≡ some r)
        × (r.user_id ≡ id)
        × (w.now < r.expires_at)
        × ((secret : Text) × (t : ℕ) × (secret_of (user_totp id a) ≡ some secret)
            × Near t w.now
            × (login_code site.hmac secret t ≡ ok (keep_if is_kept w.code)))
        × IsGone r.id (login_totp site w a).1.challenges
  unfolding login_totp
  login_totp-entered w a id long h = elim (Bool-cases site.local_login_enabled) [
    | inl e ↦
        (let o = totp_challenge_by_hash (site.token_hash w.challenge) a in
          let same_reply = open_to w a e in
          let (r, found, same, early, (secret, known, right), gone) =
            challenge_entered o w a id (rw same_reply at h) in
          let (t, near, is_code) = (verify-iff-code site.hmac secret w.code w.now long).0 right in
          (
            r,
            found,
            same,
            early,
            (secret, t, rw same at known, near, is_code),
            subst (λ reply. IsGone r.id reply.1.challenges) (sym same_reply) gone,
          ))
    | inr e ↦ cc (rw (login_totp, e) at h)
  ]
