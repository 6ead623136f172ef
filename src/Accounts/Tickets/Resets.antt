-- ===== src/Accounts/Tickets/Resets.antt =====
-- What a password reset leaves of an account's ways in.
use qdrust.Base.{
  ℕ, ◌==◌, Text, codes, starts_with, text_eq, Bool, true, false, not, any, keep_if, Option, none,
  some, List, [], ◌∷◌, Result, ok, err, ◌≡◌, ◌≢◌, ◌⊎◌, refl, ap, ◌∙◌, arith, inl, inr, Bool-cases,
  or_else,
}
use qdrust.Accounts.{
  User, Session, Ticket, Accounts, StoreError, invalid_hash, first_where, has_id, get_user,
  update_users, is_active, of_user, with_password, change_password, authenticate_session,
}
use qdrust.Accounts.Tickets.{
  redeems, without_ticket, used_up, reset_with, consume_password_reset_token,
}

unfoldable pub user_of : Option Session → Option ℕ
user_of none = none
user_of (some s) = some s.user_id

unfoldable pub password_of : Option User → Option Text
password_of none = none
password_of (some u) = some u.password_hash

module _ {ℓ} {A : Type ℓ} where
  first_where-filtered :
      (q r : A → Bool) (xs : List A)
      → ((x : A) → q x ≡ true → r x ≡ false)
      → first_where q (keep_if r xs) ≡ none
  unfolding first_where
  first_where-filtered q r [] h = refl
  first_where-filtered q r (x ∷ xs) h = elim (Bool-cases (r x)) [
    | inl e ↦ elim (Bool-cases (q x)) [
      | inl f ↦ cc (h x f)
      | inr f ↦ rw (e, f) (first_where-filtered q r xs h)
    ]
    | inr e ↦ rw e (first_where-filtered q r xs h)
  ]

-- No session of the user is left to be found.
no_session :
    (test : Session → Bool) (id : ℕ) (rows : List Session)
    → user_of (first_where test (keep_if (λ s. not (of_user id s)) rows)) ≢ some id
unfolding user_of first_where of_user
no_session test id [] = λ e. cc
no_session test id (s ∷ rows) = elim (Bool-cases (s.user_id == id)) [
  | inl e ↦ rw e (no_session test id rows)
  | inr e ↦ elim (Bool-cases (test s)) [
    | inl f ↦ rw (e, f) (λ h. grind (arith, e, ap (λ o. or_else o id) h))
    | inr f ↦ rw (e, f) (no_session test id rows)
  ]
]

new_password :
    (id : ℕ) (hash : Text) (users : List User) (u : User)
    → first_where (has_id id) users ≡ some u
    → u.disabled ≡ false
    → (any (is_active id) users ≡ true)
      × (password_of
            (first_where (has_id id) (update_users (is_active id) (with_password hash) users))
          ≡ some hash)
unfolding first_where has_id update_users is_active with_password password_of
new_password id hash [] u e f = cc
new_password id hash (v ∷ users) u e f = elim (Bool-cases (v.id == id)) [
  | inl g ↦
      (let on = ap (λ o. (or_else o v).disabled) (rw g at e) ∙ f in rw (g, on, g) (refl, refl))
  | inr g ↦ rw (g, g) (new_password id hash users u (rw g at e) f)
]

unfoldable changed : ℕ → Text → Accounts → Accounts
changed id hash a = record a {
  users = update_users (is_active id) (with_password hash) a.users;
  sessions = keep_if (λ s. not (of_user id s)) a.sessions;
}

change_cases :
    (id : ℕ) (hash : Text) (a : Accounts)
    → (change_password id hash a ≡ (err invalid_hash, a))
      ⊎ ((any (is_active id) a.users ≡ false) × (change_password id hash a ≡ (ok false, a)))
      ⊎ (change_password id hash a ≡ (ok true, changed id hash a))
unfolding change_password changed
change_cases id hash a = elim (Bool-cases (starts_with (codes "$argon2id$") hash)) [
  | inl e ↦ elim (Bool-cases (any (is_active id) a.users)) [
    | inl f ↦ inr (inr (rw (e, f) refl))
    | inr f ↦ inr (inl (f, rw (e, f) refl))
  ]
  | inr e ↦ inl (rw e refl)
]

module _ (token_hash : Text → Text) where
  some_id : Result StoreError (Option ℕ) → ℕ
  some_id (ok (some id)) = id
  some_id (ok none) = 0
  some_id (err e) = 0

  reset_lem :
      (o : Option Ticket) (token hash : Text) (a : Accounts) (id : ℕ) (u : User)
      → get_user id a ≡ some u
      → u.disabled ≡ false
      → (reset_with token_hash o token hash a).0 ≡ ok (some id)
      → (let b = (reset_with token_hash o token hash a).1 in
          (b.resets ≡ without_ticket token_hash token a.resets)
          × (b.sessions ≡ keep_if (λ s. not (of_user id s)) a.sessions)
          × (b.users ≡ update_users (is_active id) (with_password hash) a.users))
  unfolding reset_with used_up changed get_user some_id
  reset_lem none token hash a id u found on h = cc
  reset_lem (some t) token hash a id u found on h = elim (change_cases t.user_id hash a) [
    | inl e ↦ cc (rw e at h)
    | inr (inl (f, e)) ↦
        (let same = ap some_id (rw e at h) in
          let (active, _) = new_password id hash a.users u found on in cc (rw same at f, active))
    | inr (inr e) ↦ (let same = ap some_id (rw e at h) in rw (e, same) (refl, refl, refl))
  ]

  again :
      (token : Text) (later : ℕ) (rows : List Ticket)
      → first_where (redeems token_hash token later) (without_ticket token_hash token rows) ≡ none
  unfolding redeems without_ticket
  again token later rows =
      first_where-filtered (redeems token_hash token later)
        (λ t. not (text_eq t.token_hash (token_hash token))) rows (λ t h. ground (arith, h))

  -- A reset that gave an enabled user's id has set the password, no session that is sent is taken
  -- for that user any more, and the token resets nothing again, whatever password is asked for.
  pub consume_password_reset_token-revokes :
      (token hash : Text) (now : ℕ) (a : Accounts) (id : ℕ) (u : User) (session other : Text)
      (later : ℕ)
      → get_user id a ≡ some u
      → u.disabled ≡ false
      → (consume_password_reset_token token_hash token hash now a).0 ≡ ok (some id)
      → (let b = (consume_password_reset_token token_hash token hash now a).1 in
          (password_of (get_user id b) ≡ some hash)
          × (user_of (authenticate_session token_hash session later b) ≢ some id)
          × (consume_password_reset_token token_hash token other later b ≡ (ok none, b)))
  unfolding consume_password_reset_token get_user authenticate_session
  consume_password_reset_token-revokes token hash now a id u session other later found on h =
      let o = first_where (redeems token_hash token now) a.resets in
      let (resets, sessions, users) = reset_lem o token hash a id u found on h in
      (
        rw users (new_password id hash a.users u found on).1,
        rw sessions (no_session _ id a.sessions),
        rw (resets, again token later a.resets) refl,
      )
