-- ===== src/Notepad/Counts.antt =====
-- The slots of one owner, counted, under the writes and removals of store.rs.
use qdrust.Base.{
  ℕ, suc, ◌≤◌, Text, Bool, true, false, is_empty, Option, List, [], ◌∷◌, length, if◌then◌else◌, ◌≡◌,
  ◌≢◌, refl, arith,
}
use qdrust.Base.Int.{ℤ, int_eq}
use qdrust.Notepad.{NotepadSlot, missing, stored, sort, insert_sorted}
use qdrust.Notepad.Table.{
  Row, is_row, notepad_slot, notepad_slots, notepad_write, notepad_remove, slot-write, slot-remove,
}

length-insert_sorted : (x : ℤ) (ys : List ℤ) → length (insert_sorted x ys) ≡ suc (length ys)
unfolding insert_sorted
length-insert_sorted x [] = refl
length-insert_sorted x (y ∷ ys) = ground (arith, length-insert_sorted x ys)

pub length-sort : (xs : List ℤ) → length (sort xs) ≡ length xs
unfolding sort
length-sort [] = refl
length-sort (x ∷ xs) = omega (arith, length-insert_sorted x (sort xs), length-sort xs)

unfoldable pub is_stored : NotepadSlot → Bool
is_stored missing = false
is_stored (stored content) = true

pub is_empty-length : {A : Type 0} (xs : List A) → is_empty xs ≡ false → length xs ≢ 0
is_empty-length [] h e = ground (arith, h)
is_empty-length (x ∷ xs) h e = omega (arith, e)

module _ (owner : ℕ) where
  unfoldable pub slot_count : List Row → ℕ
  slot_count rows = length (notepad_slots owner rows)

  unfoldable pub has_slot : ℤ → List Row → Bool
  unfolding is_stored
  has_slot slot rows = is_stored (notepad_slot owner slot rows)

  pub has-write :
      (slot place : ℤ) (content : Option Text) (rows : List Row)
      → has_slot place (notepad_write owner slot content rows)
        ≡ (if int_eq slot place then true else has_slot place rows)
  unfolding has_slot is_stored
  has-write slot place content rows = ground (arith, slot-write owner owner slot place content rows)

  pub has-remove :
      (slot place : ℤ) (rows : List Row)
      → has_slot place (notepad_remove owner slot rows)
        ≡ (if int_eq slot place then false else has_slot place rows)
  unfolding has_slot is_stored
  has-remove slot place rows = ground (arith, slot-remove owner owner slot place rows)

  pub count-write-le :
      (slot : ℤ) (content : Option Text) (rows : List Row)
      → slot_count (notepad_write owner slot content rows) ≤ suc (slot_count rows)
  unfolding slot_count notepad_slots notepad_write is_row
  count-write-le slot content [] = ground arith
  count-write-le slot content (r ∷ rows) = ground (arith, count-write-le slot content rows)

  pub count-write-same :
      (slot : ℤ) (content : Option Text) (rows : List Row)
      → has_slot slot rows ≡ true
      → slot_count (notepad_write owner slot content rows) ≡ slot_count rows
  unfolding slot_count notepad_slots notepad_write is_row has_slot notepad_slot is_stored
  count-write-same slot content [] h = ground (arith, h)
  count-write-same slot content (r ∷ rows) h = ground (arith, count-write-same slot content rows, h)

  pub count-remove-le :
      (slot : ℤ) (rows : List Row) → slot_count (notepad_remove owner slot rows) ≤ slot_count rows
  unfolding slot_count notepad_slots notepad_remove is_row
  count-remove-le slot [] = ground arith
  count-remove-le slot (r ∷ rows) = ground (arith, count-remove-le slot rows)
