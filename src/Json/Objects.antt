-- ===== src/Json/Objects.antt =====
-- The methods of `serde_json::Map` that change an object, whose members stand in the order of their
-- keys.
use qdrust.Base.{
  ltb, ◌==◌, Text, text_eq, text_eq_iff, Bool, true, false, ◌&&◌, ◌||◌, Option, none, some, [], ◌∷◌,
  is_some, if◌then◌else◌, ◌≡◌, refl, sym, ap, subst, or_else, text_eq_refl, ◌∙◌, arith, inl, inr,
  Bool-cases,
}
use qdrust.Json.{Value, Fields, no_fields, field, get_field}

unfoldable pub text_less : Text → Text → Bool
text_less a [] = false
text_less [] (d ∷ ds) = true
text_less (c ∷ cs) (d ∷ ds) = ltb c d || c == d && text_less cs ds

-- `Map::insert`
unfoldable pub insert_field : Text → Value → Fields → Fields
unfolding text_less
insert_field k v no_fields = field k v no_fields
insert_field k v (field j w fs) =
    let rest = insert_field k v fs in
    if text_eq j k
    then field k v fs
    else if text_less k j
    then field k v (field j w fs)
    else field j w rest

unfoldable pub has_field : Text → Fields → Bool
unfolding get_field
has_field k fs = is_some (get_field k fs)

-- `Map::entry(k).or_insert_with`
unfoldable pub or_insert : Text → Value → Fields → Fields
unfolding has_field insert_field
or_insert k v fs = if has_field k fs then fs else insert_field k v fs

unfoldable pub remove_field : Text → Fields → Fields
remove_field k no_fields = no_fields
remove_field k (field j v fs) =
    let rest = remove_field k fs in if text_eq j k then rest else field j v rest

-- A change through `Map::get_mut`.
unfoldable pub alter_field : Text → (Value → Value) → Fields → Fields
alter_field k f no_fields = no_fields
alter_field k f (field j v fs) =
    let rest = alter_field k f fs in if text_eq j k then field j (f v) fs else field j v rest

unfoldable pub map_found : (Value → Value) → Option Value → Option Value
map_found f none = none
map_found f (some v) = some (f v)

pub get_field-insert_field :
    (k j : Text) (v : Value) (fs : Fields)
    → get_field j (insert_field k v fs) ≡ (if text_eq k j then some v else get_field j fs)
unfolding get_field insert_field
get_field-insert_field k j v no_fields = refl
get_field-insert_field k j v (field i w fs) =
    ground
      (arith, text_eq_iff k j, text_eq_iff i k, text_eq_iff i j, get_field-insert_field k j v fs)

pub get_field-remove_field :
    (k j : Text) (fs : Fields)
    → get_field j (remove_field k fs) ≡ (if text_eq k j then none else get_field j fs)
unfolding get_field remove_field
get_field-remove_field k j no_fields = ground arith
get_field-remove_field k j (field i w fs) =
    ground (arith, text_eq_iff k j, text_eq_iff i k, text_eq_iff i j, get_field-remove_field k j fs)

pub get_field-alter_field :
    (k j : Text) (f : Value → Value) (fs : Fields)
    → get_field j (alter_field k f fs)
      ≡ (if text_eq k j then map_found f (get_field j fs) else get_field j fs)
unfolding get_field alter_field map_found
get_field-alter_field k j f no_fields = ground arith
get_field-alter_field k j f (field i w fs) =
    ground
      (arith, text_eq_iff k j, text_eq_iff i k, text_eq_iff i j, get_field-alter_field k j f fs)

pub get_field-or_insert :
    (k j : Text) (v : Value) (fs : Fields)
    → get_field j (or_insert k v fs) ≡ (
        if text_eq k j then (if has_field k fs then get_field k fs else some v) else get_field j fs)
unfolding or_insert has_field
get_field-or_insert k j v fs = ground (arith, text_eq_iff k j, get_field-insert_field k j v fs)

pub or_insert-same :
    (k : Text) (v : Value) (fs : Fields) → has_field k fs ≡ true → or_insert k v fs ≡ fs
unfolding or_insert
or_insert-same k v fs h = rw h refl

pub remove_field-same : (k : Text) (fs : Fields) → get_field k fs ≡ none → remove_field k fs ≡ fs
unfolding get_field remove_field
remove_field-same k no_fields h = refl
remove_field-same k (field j v fs) h = elim (Bool-cases (text_eq j k)) [
  | inl e ↦ cc (rw e at h)
  | inr e ↦ rw e (ap (field j v) (remove_field-same k fs (rw e at h)))
]

pub alter_field-same :
    (k : Text) (f : Value → Value) (fs : Fields)
    → ((v : Value) → get_field k fs ≡ some v → f v ≡ v)
    → alter_field k f fs ≡ fs
unfolding get_field alter_field
alter_field-same k f no_fields h = refl
alter_field-same k f (field j v fs) h = elim (Bool-cases (text_eq j k)) [
  | inl e ↦ rw (e, h v (rw e refl)) refl
  | inr e ↦ rw e (ap (field j v) (alter_field-same k f fs (λ w g. h w (rw e g))))
]

pub has_field-or_insert :
    (k j : Text) (v : Value) (fs : Fields)
    → has_field j fs ≡ true
    → has_field j (or_insert k v fs) ≡ true
unfolding has_field
has_field-or_insert k j v fs h = ground (arith, get_field-or_insert k j v fs, h)

pub or_insert-has_field :
    (k : Text) (v : Value) (fs : Fields) → has_field k (or_insert k v fs) ≡ true
unfolding has_field
or_insert-has_field k v fs = ground (arith, get_field-or_insert k k v fs, text_eq_refl k)

pub or_insert-twice :
    (k : Text) (v : Value) (fs : Fields) → or_insert k v (or_insert k v fs) ≡ or_insert k v fs
or_insert-twice k v fs = or_insert-same k v (or_insert k v fs) (or_insert-has_field k v fs)

-- What is altered at one key is as before at another.
pub get_field-altered :
    (k j : Text) (f : Value → Value) (fs : Fields)
    → text_eq k j ≡ false
    → get_field j (alter_field k f fs) ≡ get_field j fs
get_field-altered k j f fs h = rw (get_field-alter_field k j f fs, h) refl

pub get_field-or_inserted :
    (k j : Text) (v : Value) (fs : Fields)
    → text_eq k j ≡ false
    → get_field j (or_insert k v fs) ≡ get_field j fs
get_field-or_inserted k j v fs h = rw (get_field-or_insert k j v fs, h) refl

pub map_found-has : (f : Value → Value) (o : Option Value) → is_some (map_found f o) ≡ is_some o
unfolding map_found
map_found-has f none = refl
map_found-has f (some v) = refl

pub has_field-alter_field :
    (k j : Text) (f : Value → Value) (fs : Fields)
    → has_field j (alter_field k f fs) ≡ has_field j fs
unfolding has_field
has_field-alter_field k j f fs =
    rw (get_field-alter_field k j f fs) (elim (Bool-cases (text_eq k j)) [
      | inl e ↦ rw e (map_found-has f (get_field j fs))
      | inr e ↦ rw e refl
    ])

-- A change of a member that changes nothing when it is made again.
pub alter_field-again :
    (k : Text) (f : Value → Value) (o : Option Value) (fs : Fields)
    → ((v : Value) → f (f v) ≡ f v)
    → get_field k fs ≡ map_found f o
    → alter_field k f fs ≡ fs
unfolding map_found
alter_field-again k f none fs twice h = alter_field-same k f fs (λ v e. cc (h, e))
alter_field-again k f (some w) fs twice h =
    alter_field-same k f fs
      (λ v e. let same = ap (λ o. or_else o v) (sym h ∙ e) in subst (λ u. f u ≡ u) same (twice w))
