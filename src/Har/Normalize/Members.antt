-- ===== src/Har/Normalize/Members.antt =====
-- The members of an entry that has been normalised.
use qdrust.Base.{
  Text, Option-cases, text_eq_refl, text_eq, text_eq→eq, codes, Bool, true, false, ◌||◌, Option,
  none, some, or_else, if◌then◌else◌, ◌≡◌, refl, sym, ap, subst, ◌∙◌, arith, inl, inr, Bool-cases,
}
use qdrust.Json.{Value, Fields, bool, get_field}
use qdrust.Json.Objects.{
  has_field, or_insert, remove_field, get_field-remove_field, get_field-or_insert,
  get_field-altered, get_field-or_inserted,
}
use qdrust.Har.Normalize.{
  members, hoist_key, hoist_value, hoist_rule, normalize_request, normalize_fields,
}
use qdrust.Har.Normalize.Idempotent.{hoist_value-other, hoist_rule-other}

first_of : Option Value → Option Value → Option Value
first_of none o = o
first_of (some v) o = some v

-- Whether a rule's member of this name is one of the entry's.
is_hoisted : Text → Bool
is_hoisted k =
    text_eq (codes "extract_variables") k
    || text_eq (codes "failed_asserts") k
    || text_eq (codes "success_asserts") k

-- What a member other than the request is meant to be: an entry is checked unless it says
-- otherwise, it has no rule, and of the lists in its rule it takes those that it does not have.
pub expected : Text → Fields → Option Value
expected k entry =
    if text_eq (codes "rule") k
    then none
    else if text_eq (codes "checked") k
    then some (or_else (get_field k entry) (bool true))
    else if is_hoisted k
    then first_of (get_field k entry) (get_field k (members (get_field (codes "rule") entry)))
    else get_field k entry

has_field-first :
    (k : Text) (v : Value) (fs : Fields)
    → (if has_field k fs then get_field k fs else some v) ≡ first_of (get_field k fs) (some v)
unfolding has_field first_of
has_field-first k v fs = elim (Option-cases (get_field k fs)) [
  | inl e ↦ rw e refl
  | inr (w, e) ↦ rw e refl
]

first_of-none : (o : Option Value) → first_of o none ≡ o
unfolding first_of
first_of-none none = refl
first_of-none (some v) = refl

hoist_value-this :
    (o : Option Value) (k : Text) (entry : Fields)
    → get_field k (hoist_value o k entry) ≡ first_of (get_field k entry) o
unfolding hoist_value
hoist_value-this none k entry = sym (first_of-none (get_field k entry))
hoist_value-this (some v) k entry =
    rw (get_field-or_insert k k v entry, text_eq_refl k) (has_field-first k v entry)

hoisted_lem :
    (rule entry : Fields) (k : Text)
    → is_hoisted k ≡ true
    → get_field k (hoist_rule rule entry) ≡ first_of (get_field k entry) (get_field k rule)
unfolding is_hoisted hoist_rule hoist_key
hoisted_lem rule entry k h =
    let x = codes "extract_variables" in
    let f = codes "failed_asserts" in
    let s = codes "success_asserts" in
    let e1 = hoist_value (get_field s rule) s entry in
    let e2 = hoist_value (get_field f rule) f e1 in
    elim (Bool-cases (text_eq x k)) [
      | inl e ↦
          subst
            (λ k.
              get_field k (hoist_rule rule entry) ≡ first_of (get_field k entry) (get_field k rule))
            (text_eq→eq x k e)
            (hoist_value-this (get_field x rule) x e2
              ∙ ap (λ o. first_of o (get_field x rule))
                  (hoist_value-other (get_field f rule) f x e1 refl
                    ∙ hoist_value-other (get_field s rule) s x entry refl))
      | inr e ↦ elim (Bool-cases (text_eq f k)) [
        | inl g ↦
            subst
              (λ k.
                get_field k (hoist_rule rule entry)
                ≡ first_of (get_field k entry) (get_field k rule))
              (text_eq→eq f k g)
              (hoist_value-other (get_field x rule) x f e2 refl
                ∙ hoist_value-this (get_field f rule) f e1
                ∙ ap (λ o. first_of o (get_field f rule))
                    (hoist_value-other (get_field s rule) s f entry refl))
        | inr g ↦
            subst
              (λ k.
                get_field k (hoist_rule rule entry)
                ≡ first_of (get_field k entry) (get_field k rule))
              (text_eq→eq s k (rw (e, g) at h))
              (hoist_value-other (get_field x rule) x s e2 refl
                ∙ hoist_value-other (get_field f rule) f s e1 refl
                ∙ hoist_value-this (get_field s rule) s entry)
      ]
    ]

-- The entry with its flag and without its rule.
bare : Fields → Fields
bare entry = remove_field (codes "rule") (or_insert (codes "checked") (bool true) entry)

get_field-bare :
    (k : Text) (entry : Fields)
    → text_eq (codes "rule") k ≡ false
    → text_eq (codes "checked") k ≡ false
    → get_field k (bare entry) ≡ get_field k entry
unfolding bare
get_field-bare k entry a b =
    rw (get_field-remove_field (codes "rule") k _, a)
      (get_field-or_inserted (codes "checked") k (bool true) entry b)

first_of-bool : (o : Option Value) (v : Value) → first_of o (some v) ≡ some (or_else o v)
unfolding first_of
first_of-bool none v = refl
first_of-bool (some w) v = refl

all_false : (a b c : Bool) → a || b || c ≡ false → (a ≡ false) × (b ≡ false) × (c ≡ false)
all_false a b c h = ground (arith, h)

not_hoisted :
    (k : Text)
    → is_hoisted k ≡ false
    → (text_eq (codes "extract_variables") k ≡ false)
      × (text_eq (codes "failed_asserts") k ≡ false)
      × (text_eq (codes "success_asserts") k ≡ false)
unfolding is_hoisted
not_hoisted k h =
    all_false (text_eq (codes "extract_variables") k) (text_eq (codes "failed_asserts") k)
      (text_eq (codes "success_asserts") k) h

-- A member of an entry that has been normalised, its request apart, is what it is meant to be.
pub get_field-normalize_fields :
    (k : Text) (entry : Fields)
    → text_eq (codes "request") k ≡ false
    → get_field k (normalize_fields entry) ≡ expected k entry
unfolding normalize_fields expected bare
get_field-normalize_fields k entry h =
    let on = bool true in
    let flagged = or_insert (codes "checked") on entry in
    let rule = members (get_field (codes "rule") flagged) in
    let same : get_field (codes "rule") flagged ≡ get_field (codes "rule") entry =
      get_field-or_inserted (codes "checked") (codes "rule") on entry refl in
    let outside =
      get_field-altered (codes "request") k normalize_request (hoist_rule rule (bare entry)) h in
    outside ∙ elim (Bool-cases (text_eq (codes "rule") k)) [
      | inl e ↦
          subst (λ k. get_field k (hoist_rule rule (bare entry)) ≡ expected k entry)
            (text_eq→eq (codes "rule") k e)
            (hoist_rule-other rule (codes "rule") (bare entry) refl refl refl
              ∙ get_field-remove_field (codes "rule") (codes "rule") flagged)
      | inr e ↦ elim (Bool-cases (text_eq (codes "checked") k)) [
        | inl f ↦
            subst (λ k. get_field k (hoist_rule rule (bare entry)) ≡ expected k entry)
              (text_eq→eq (codes "checked") k f)
              (hoist_rule-other rule (codes "checked") (bare entry) refl refl refl
                ∙ get_field-remove_field (codes "rule") (codes "checked") flagged
                ∙ get_field-or_insert (codes "checked") (codes "checked") on entry
                ∙ has_field-first (codes "checked") on entry
                ∙ first_of-bool (get_field (codes "checked") entry) on)
        | inr f ↦ elim (Bool-cases (is_hoisted k)) [
          | inl g ↦
              (let meant : first_of (get_field k (bare entry)) (get_field k rule)
                    ≡ expected k entry =
                  rw (e, f, g, get_field-bare k entry e f, same) refl in
                hoisted_lem rule (bare entry) k g ∙ meant)
          | inr g ↦
              (let meant : get_field k (bare entry) ≡ expected k entry =
                  rw (e, f, g) (get_field-bare k entry e f) in
                let (x, y, z) = not_hoisted k g in
                hoist_rule-other rule k (bare entry) x y z ∙ meant)
        ]
      ]
    ]
