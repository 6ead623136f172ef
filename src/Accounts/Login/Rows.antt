-- ===== src/Accounts/Login/Rows.antt =====
-- The rows of the logins that wait for a code, and what a count of compared codes says of them.
use qdrust.Base.{
  ℕ, suc, ◌+◌, ◌≤◌, ◌<◌, ◌==◌, ltb, Text, Bool, true, not, keep_if, Option, none, some, List, [],
  ◌∷◌, map, All, ◌≡◌, ap, subst, or_else, arith, inl, inr, Bool-cases, ==→eq,
}
use qdrust.Accounts.{
  User, Challenge, Accounts, i64_max, first_where, create_session, insert_session, get_user,
}
use qdrust.Accounts.Factor.{is_challenge, count_attempt, attempts_of}

-- The count n of compared codes, and what the rows say of it.
unfoldable pub Counted : ℕ → ℕ → Challenge → Type 0
Counted c n r = r.id ≡ c → (n ≤ r.attempts) × (n < 5)

abbrev pub RowsKept : ℕ → ℕ → List Challenge → ℕ → Type 0
RowsKept c n rows next = (n ≤ 5) × (c < next) × All (Counted c n) rows

unfoldable pub Kept : ℕ → ℕ → Accounts → Type 0
Kept c n a = RowsKept c n a.challenges a.next_challenge

module _ {ℓ} {A : Type ℓ} where
  pub first_where-passes :
      (q : A → Bool) (xs : List A) {x : A} → first_where q xs ≡ some x → q x ≡ true
  unfolding first_where
  first_where-passes q [] e = cc
  first_where-passes q (y ∷ xs) {x} e = elim (Bool-cases (q y)) [
    | inl f ↦ (let same = ap (λ o. or_else o y) (rw f at e) in subst (λ z. q z ≡ true) same f)
    | inr f ↦ first_where-passes q xs (rw f at e)
  ]

module _ {ℓ κ} {A : Type ℓ} where
  pub All-keep_if : (P : A → Type κ) (q : A → Bool) (xs : List A) → All P xs → All P (keep_if q xs)
  All-keep_if P q [] h = h
  All-keep_if P q (x ∷ xs) (p, h) = elim (Bool-cases (q x)) [
    | inl e ↦ rw e (p, All-keep_if P q xs h)
    | inr e ↦ rw e (All-keep_if P q xs h)
  ]

  pub first_where-All :
      (P : A → Type κ) (q : A → Bool) (xs : List A) {x : A}
      → All P xs
      → first_where q xs ≡ some x
      → P x × (q x ≡ true)
  unfolding first_where
  first_where-All P q [] h e = cc
  first_where-All P q (y ∷ xs) {x} (p, h) e = elim (Bool-cases (q y)) [
    | inl f ↦
        (let same = ap (λ o. or_else o y) (rw f at e) in
          subst (λ z. P z × (q z ≡ true)) same (p, f))
    | inr f ↦ first_where-All P q xs h (rw f at e)
  ]

pub without-Counted :
    (c n : ℕ) (rows : List Challenge)
    → All (Counted c n) (keep_if (λ r. not (is_challenge c r)) rows)
unfolding is_challenge Counted
without-Counted c n [] = tt
without-Counted c n (r ∷ rows) = elim (Bool-cases (r.id == c)) [
  | inl e ↦ rw e (without-Counted c n rows)
  | inr e ↦ rw e ((λ f. grind (arith, e, f)), without-Counted c n rows)
]

pub count_attempt-Counted :
    (c n id : ℕ) (rows : List Challenge)
    → All (Counted c n) rows
    → All (Counted c n) (map (count_attempt id) rows)
unfolding count_attempt is_challenge Counted
count_attempt-Counted c n id [] h = tt
count_attempt-Counted c n id (r ∷ rows) (p, h) = elim (Bool-cases (r.id == id)) [
  | inl e ↦ rw e (
    (λ f. let (low, few) = p f in (omega (arith, low), few)),
    count_attempt-Counted c n id rows h,
  )
  | inr e ↦ rw e (p, count_attempt-Counted c n id rows h)
]

-- After a count of this challenge its rows have one more, and few still where the first has few.
pub one_more :
    (c n : ℕ) (rows : List Challenge)
    → All (Counted c n) rows
    → All (λ r. r.id ≡ c → suc n ≤ r.attempts) (map (count_attempt c) rows)
unfolding count_attempt is_challenge Counted
one_more c n [] h = tt
one_more c n (r ∷ rows) (p, h) = elim (Bool-cases (r.id == c)) [
  | inl e ↦ rw e ((λ f. let (low, few) = p f in omega (arith, low)), one_more c n rows h)
  | inr e ↦ rw e ((λ f. grind (arith, e, f)), one_more c n rows h)
]

few_all :
    (c m : ℕ) (rows : List Challenge)
    → m < 5
    → All (λ r. r.id ≡ c → m ≤ r.attempts) rows
    → All (Counted c m) rows
unfolding Counted
few_all c m [] few h = tt
few_all c m (r ∷ rows) few (p, h) = ((λ e. (p e, few)), few_all c m rows few h)

pub few_first :
    (c m : ℕ) (rows : List Challenge)
    → attempts_of (first_where (is_challenge c) rows) < 5
    → All (λ r. r.id ≡ c → m ≤ r.attempts) rows
    → All (Counted c m) rows
unfolding Counted attempts_of first_where is_challenge
few_first c m [] few h = tt
few_first c m (r ∷ rows) few (p, h) = elim (Bool-cases (r.id == c)) [
  | inl e ↦
      (let one = p (==→eq r.id c e) in
        let low = rw e at few in
        let small : m < 5 = omega (arith, one, low) in
        ((λ f. (p f, small)), few_all c m rows small h))
  | inr e ↦ ((λ f. grind (arith, e, f)), few_first c m rows (rw e at few) h)
]

-- A session that is made leaves what holds of the challenges.
insert_session-same :
    (P : List Challenge → ℕ → Type 0) (user : Option User) (session csrf : Text) (ttl now : ℕ)
    (a : Accounts)
    → P a.challenges a.next_challenge
    → (let b = (insert_session user session csrf ttl now a).1 in P b.challenges b.next_challenge)
unfolding insert_session
insert_session-same P none session csrf ttl now a h = h
insert_session-same P (some u) session csrf ttl now a h = elim (Bool-cases u.disabled) [
  | inl e ↦ rw e h
  | inr e ↦ elim (Bool-cases (ltb i64_max ttl)) [
    | inl f ↦ rw (e, f) h
    | inr f ↦ elim (Bool-cases (ltb i64_max (now + ttl))) [
      | inl g ↦ rw (e, f, g) h
      | inr g ↦ rw (e, f, g) h
    ]
  ]
]

pub create_session-same :
    (P : List Challenge → ℕ → Type 0) (token_hash : Text → Text) (id ttl : ℕ) (session csrf : Text)
    (now : ℕ) (a : Accounts)
    → P a.challenges a.next_challenge
    → (let b = (create_session token_hash id ttl session csrf now a).1 in
        P b.challenges b.next_challenge)
unfolding create_session
create_session-same P token_hash id ttl session csrf now a h = elim (Bool-cases (ttl == 0)) [
  | inl e ↦ rw e h
  | inr e ↦
      rw e
        (insert_session-same P (get_user id a) (token_hash session) (token_hash csrf) ttl now a h)
]
