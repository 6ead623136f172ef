-- ===== src/Expression/MutableSeq/Laws.antt =====
-- What the mutable list of expression.rs keeps and gives back.
use qdrust.Base.{
  ℕ, zero, suc, ◌≤◌, min, Text, text_eq, codes, Bool, true, false, Option, some, List, [], ◌∷◌,
  ◌++◌, length, Result, ok, err, if◌then◌else◌, ◌≡◌, refl, sym, ap, arith, Option-cases, inl, inr,
}
use qdrust.Base.Int.{ℤ, pos}
use qdrust.Expression.MutableSeq.{
  SeqError, clamp_index, insert_at, get_elem?, remove_at, position, append, extend, extend_with,
  insert, pop_found, pop_at, last_index, pop, remove, remove_found, call_method,
}

module _ {V : Type 0} where
  get-insert :
      (n : ℕ) (x : V) (items : List V)
      → n ≤ length items
      → get_elem? n (insert_at n x items) ≡ some x
  unfolding get_elem? insert_at
  get-insert zero x items h = refl
  get-insert (suc n) x [] h = absurd (omega (arith, h))
  get-insert (suc n) x (y ∷ items) h = get-insert n x items (omega (arith, h))

  remove-insert :
      (n : ℕ) (x : V) (items : List V)
      → n ≤ length items
      → remove_at n (insert_at n x items) ≡ items
  unfolding remove_at insert_at
  remove-insert zero x items h = refl
  remove-insert (suc n) x [] h = absurd (omega (arith, h))
  remove-insert (suc n) x (y ∷ items) h =
      ap (λ t. y ∷ t) (remove-insert n x items (omega (arith, h)))

  length-insert :
      (n : ℕ) (x : V) (items : List V) → length (insert_at n x items) ≡ suc (length items)
  unfolding insert_at
  length-insert zero x items = refl
  length-insert (suc n) x [] = refl
  length-insert (suc n) x (y ∷ items) = ap suc (length-insert n x items)

  length-append-one : (x : V) (items : List V) → length (items ++ x ∷ []) ≡ suc (length items)
  length-append-one x [] = refl
  length-append-one x (y ∷ items) = ap suc (length-append-one x items)

  insert-end : (x : V) (items : List V) → insert_at (length items) x items ≡ items ++ x ∷ []
  unfolding insert_at
  insert-end x [] = refl
  insert-end x (y ∷ items) = ap (λ t. y ∷ t) (insert-end x items)

module _ {V : Type 0} (undefined : V) (equal : V → V → Bool) (items_of : V → Option (List V))
    (index_of : V → ℤ) where
  abbrev pub call : Text → List V → List V → Result SeqError V × List V
  call = call_method undefined equal items_of index_of

  -- An error leaves the list as it was.
  unfoldable pub KeepsOnError : List V → Result SeqError V × List V → Type 0
  KeepsOnError items (ok v, out) = Unit
  KeepsOnError items (err e, out) = out ≡ items

  keeps_append :
      (args items : List V)
      → KeepsOnError items (append undefined equal items_of index_of args items)
  unfolding append KeepsOnError
  keeps_append [] items = refl
  keeps_append (x ∷ []) items = tt
  keeps_append (x ∷ y ∷ args) items = refl

  keeps_extend :
      (args items : List V)
      → KeepsOnError items (extend undefined equal items_of index_of args items)
  unfolding extend extend_with KeepsOnError
  keeps_extend [] items = refl
  keeps_extend (x ∷ []) items = elim (Option-cases (items_of x)) [
    | inl e ↦ rw e refl
    | inr (v, e) ↦ rw e tt
  ]
  keeps_extend (x ∷ y ∷ args) items = refl

  keeps_insert :
      (args items : List V)
      → KeepsOnError items (insert undefined equal items_of index_of args items)
  unfolding insert KeepsOnError
  keeps_insert [] items = refl
  keeps_insert (x ∷ []) items = refl
  keeps_insert (x ∷ y ∷ []) items = tt
  keeps_insert (x ∷ y ∷ z ∷ args) items = refl

  keeps_pop_at :
      (n : ℕ) (items : List V)
      → KeepsOnError items (pop_at undefined equal items_of index_of n items)
  unfolding pop_at pop_found KeepsOnError
  keeps_pop_at n items = elim (Option-cases (get_elem? n items)) [
    | inl e ↦ rw e refl
    | inr (v, e) ↦ rw e tt
  ]

  keeps_pop :
      (args items : List V) → KeepsOnError items (pop undefined equal items_of index_of args items)
  unfolding pop KeepsOnError
  keeps_pop [] items = keeps_pop_at _ items
  keeps_pop (x ∷ []) items = keeps_pop_at _ items
  keeps_pop (x ∷ y ∷ args) items = refl

  keeps_remove :
      (args items : List V)
      → KeepsOnError items (remove undefined equal items_of index_of args items)
  unfolding remove remove_found KeepsOnError
  keeps_remove [] items = refl
  keeps_remove (x ∷ []) items = elim (Option-cases (position (λ y. equal y x) items)) [
    | inl e ↦ rw e refl
    | inr (v, e) ↦ rw e tt
  ]
  keeps_remove (x ∷ y ∷ args) items = refl

  keeps_if :
      (test : Bool) (items : List V) (a b : Result SeqError V × List V)
      → KeepsOnError items a
      → KeepsOnError items b
      → KeepsOnError items (if test then a else b)
  keeps_if true items a b h k = h
  keeps_if false items a b h k = k

  -- A call that fails, of whatever name and with whatever arguments, leaves the list as it was.
  pub call_method_keeps :
      (name : Text) (args items : List V) → KeepsOnError items (call name args items)
  unfolding call_method KeepsOnError
  call_method_keeps name args items =
      keeps_if (text_eq name (codes "append")) items _ _ (keeps_append args items) (
        keeps_if (text_eq name (codes "extend")) items _ _ (keeps_extend args items) (
          keeps_if (text_eq name (codes "insert")) items _ _ (keeps_insert args items) (
            keeps_if (text_eq name (codes "pop")) items _ _ (keeps_pop args items) (
              keeps_if (text_eq name (codes "remove")) items _ _ (keeps_remove args items)
                (keeps_if (text_eq name (codes "clear")) items _ _ tt refl)))))

  -- An item that `insert` put at a place from the first to the one after the last is what `pop` of
  -- that place gives back, and the list is then as it was before.
  pub pop-insert :
      (i x : V) (items : List V) {n : ℕ}
      → index_of i ≡ pos n
      → n ≤ length items
      → call (codes "pop") (i ∷ []) (call (codes "insert") (i ∷ x ∷ []) items).1 ≡ (ok x, items)
  unfolding call_method insert pop pop_at pop_found clamp_index
  pop-insert i x items {n} e h =
      let j : min n (length items) ≡ n = omega (arith, h) in
      let k : min n (suc (length items)) ≡ n = omega (arith, h) in
      rw (e, j, length-insert n x items, k, get-insert n x items h, remove-insert n x items h) refl

  last_index-append :
      (x : V) (items : List V)
      → last_index undefined equal items_of index_of (items ++ x ∷ []) ≡ length items
  unfolding last_index
  last_index-append x [] = refl
  last_index-append x (y ∷ items) = length-append-one x items

  -- `append` puts an item where a `pop` without a place takes it from.
  pub pop-append :
      (x : V) (items : List V)
      → call (codes "pop") [] (call (codes "append") (x ∷ []) items).1 ≡ (ok x, items)
  unfolding call_method append pop pop_at pop_found last_index
  pop-append x items =
      rw
        (
          last_index-append x items,
          sym (insert-end x items),
          get-insert (length items) x items (omega arith),
          remove-insert (length items) x items (omega arith),
        )
        refl
