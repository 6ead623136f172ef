-- ===== src/Notepad/Table.antt =====
-- The notepads of crates/qdrust-server/src/store.rs, and the storage of one owner in scheduler.rs.
use qdrust.Base.{ℕ, ◌==◌, Text, Bool, ◌&&◌, Option, List, [], ◌∷◌, if◌then◌else◌, ◌≡◌, refl, arith}
use qdrust.Base.Int.{ℤ, int_eq, int_eq_iff}
use qdrust.Notepad.{NotepadSlot, missing, stored, NotepadStore}

pub record Row : Type 0 where
  pub owner_id : ℕ
  pub notepad_id : ℤ
  pub content : Option Text

unfoldable pub is_row : ℕ → ℤ → Row → Bool
is_row owner slot r = r.owner_id == owner && int_eq r.notepad_id slot

unfoldable pub notepad_slot : ℕ → ℤ → List Row → NotepadSlot
unfolding is_row
notepad_slot owner slot [] = missing
notepad_slot owner slot (r ∷ rows) =
    if is_row owner slot r then stored r.content else notepad_slot owner slot rows

-- `INSERT … ON CONFLICT(owner_id,notepad_id) DO UPDATE`
unfoldable pub notepad_write : ℕ → ℤ → Option Text → List Row → List Row
unfolding is_row
notepad_write owner slot content [] =
    record { owner_id = owner; notepad_id = slot; content = content } ∷ []
notepad_write owner slot content (r ∷ rows) =
    let rest = notepad_write owner slot content rows in
    if is_row owner slot r then record r { content = content } ∷ rows else r ∷ rest

unfoldable pub notepad_slots : ℕ → List Row → List ℤ
notepad_slots owner [] = []
notepad_slots owner (r ∷ rows) =
    let rest = notepad_slots owner rows in if r.owner_id == owner then r.notepad_id ∷ rest else rest

unfoldable pub notepad_remove : ℕ → ℤ → List Row → List Row
unfolding is_row
notepad_remove owner slot [] = []
notepad_remove owner slot (r ∷ rows) =
    let rest = notepad_remove owner slot rows in if is_row owner slot r then rest else r ∷ rest

unfoldable pub owner_notepad : ℕ → NotepadStore (List Row)
unfolding notepad_slot notepad_write notepad_slots notepad_remove
owner_notepad owner = record {
  read = notepad_slot owner;
  write = notepad_write owner;
  slots = notepad_slots owner;
  delete = notepad_remove owner;
}

pub slot-write :
    (owner other : ℕ) (slot place : ℤ) (content : Option Text) (rows : List Row)
    → notepad_slot other place (notepad_write owner slot content rows) ≡ (
        if owner == other && int_eq slot place
        then stored content
        else notepad_slot other place rows)
unfolding notepad_slot notepad_write is_row
slot-write owner other slot place content [] = refl
slot-write owner other slot place content (r ∷ rows) = ground (
  arith,
  int_eq_iff slot place,
  int_eq_iff r.notepad_id slot,
  int_eq_iff r.notepad_id place,
  slot-write owner other slot place content rows,
)

pub slot-remove :
    (owner other : ℕ) (slot place : ℤ) (rows : List Row)
    → notepad_slot other place (notepad_remove owner slot rows)
      ≡ (if owner == other && int_eq slot place then missing else notepad_slot other place rows)
unfolding notepad_slot notepad_remove is_row
slot-remove owner other slot place [] = ground arith
slot-remove owner other slot place (r ∷ rows) = ground (
  arith,
  int_eq_iff slot place,
  int_eq_iff r.notepad_id slot,
  int_eq_iff r.notepad_id place,
  slot-remove owner other slot place rows,
)
