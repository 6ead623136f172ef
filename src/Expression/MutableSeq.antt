-- ===== src/Expression/MutableSeq.antt =====
-- The list with Python's methods of expression.rs, that a template declares and then changes.
pub mod Laws
use qdrust.Base.{
  ℕ, zero, suc, ◌+◌, ◌-◌, ◌≤◌, ◌<◌, ◌==◌, leb, ltb, min, Text, text_eq, codes, Bool, true, false,
  Option, none, some, List, [], ◌∷◌, ◌++◌, length, take, Result, ok, err, if◌then◌else◌, ◌≡◌, refl,
  ap, sym, ◌∙◌, append-nil, append_assoc, arith, Bool-cases, inl, inr,
}
use qdrust.Base.Int.{ℤ, pos, negsuc}

pub data SeqError : Type 0 where
  argument_count : Text → ℕ → ℕ → SeqError
  not_a_list pop_from_empty not_in_list : SeqError
  unknown_method : Text → SeqError

-- A negative index counts from the end; one that is out of range saturates.
unfoldable pub clamp_index : ℤ → ℕ → ℕ
clamp_index (pos n) len = min n len
clamp_index (negsuc n) len = len - suc n

-- `Vec::insert`, `Vec::get` and `Vec::remove`, and the place of the first item that is equal.
module _ {A : Type 0} where
  unfoldable pub insert_at : ℕ → A → List A → List A
  insert_at zero x items = x ∷ items
  insert_at (suc n) x [] = x ∷ []
  insert_at (suc n) x (y ∷ items) = y ∷ insert_at n x items

  unfoldable pub get_elem? : ℕ → List A → Option A
  get_elem? n [] = none
  get_elem? zero (x ∷ items) = some x
  get_elem? (suc n) (x ∷ items) = get_elem? n items

  unfoldable pub remove_at : ℕ → List A → List A
  remove_at n [] = []
  remove_at zero (x ∷ items) = items
  remove_at (suc n) (x ∷ items) = x ∷ remove_at n items

  unfoldable pub position : (A → Bool) → List A → Option ℕ
  position test [] = none
  position test (x ∷ items) =
      let rest = position test items in
      if test x then some 0 else elim rest [ none ↦ none | some n ↦ some (suc n) ]

-- The engine's values: the undefined one, their equality, their items, and the number that their
-- text reads as, the largest one where it reads as none.
module _ {V : Type 0} (undefined : V) (equal : V → V → Bool) (items_of : V → Option (List V))
    (index_of : V → ℤ) where
  abbrev pub Answer : Type 0
  Answer = Result SeqError V × List V

  unfoldable pub append : List V → List V → Answer
  append (x ∷ []) items = (ok undefined, items ++ x ∷ [])
  append args items = (err (argument_count (codes "append") (length args) 1), items)

  extend_with : Option (List V) → List V → Answer
  extend_with none items = (err not_a_list, items)
  extend_with (some incoming) items = (ok undefined, items ++ incoming)

  unfoldable pub extend : List V → List V → Answer
  unfolding extend_with
  extend (x ∷ []) items = extend_with (items_of x) items
  extend args items = (err (argument_count (codes "extend") (length args) 1), items)

  unfoldable pub insert : List V → List V → Answer
  unfolding clamp_index insert_at
  insert (i ∷ x ∷ []) items =
      (ok undefined, insert_at (clamp_index (index_of i) (length items)) x items)
  insert args items = (err (argument_count (codes "insert") (length args) 2), items)

  pop_found : Option V → ℕ → List V → Answer
  unfolding remove_at
  pop_found none n items = (err pop_from_empty, items)
  pop_found (some x) n items = (ok x, remove_at n items)

  unfoldable pub pop_at : ℕ → List V → Answer
  unfolding get_elem? pop_found
  pop_at n items = pop_found (get_elem? n items) n items

  -- The last place of an empty list is the largest number, where nothing stands.
  last_index : List V → ℕ
  last_index [] = 0xffffffffffffffff
  last_index (x ∷ items) = length items

  unfoldable pub pop : List V → List V → Answer
  unfolding pop_at clamp_index last_index
  pop [] items = pop_at (last_index items) items
  pop (i ∷ []) items = pop_at (clamp_index (index_of i) (length items)) items
  pop args items = (err (argument_count (codes "pop") (length args) 1), items)

  remove_found : Option ℕ → List V → Answer
  unfolding remove_at
  remove_found none items = (err not_in_list, items)
  remove_found (some n) items = (ok undefined, remove_at n items)

  unfoldable pub remove : List V → List V → Answer
  unfolding remove_found position
  remove (x ∷ []) items = remove_found (position (λ y. equal y x) items) items
  remove args items = (err (argument_count (codes "remove") (length args) 1), items)

  unfoldable pub call_method : Text → List V → List V → Answer
  unfolding append extend insert pop remove
  call_method name args items =
      if text_eq name (codes "append")
      then append args items
      else if text_eq name (codes "extend")
      then extend args items
      else if text_eq name (codes "insert")
      then insert args items
      else if text_eq name (codes "pop")
      then pop args items
      else if text_eq name (codes "remove")
      then remove args items
      else if text_eq name (codes "clear")
      then (ok undefined, [])
      else (err (unknown_method name), items)
