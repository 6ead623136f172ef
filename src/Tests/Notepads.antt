-- ===== src/Tests/Notepads.antt =====
-- Two owners' notepads.
use qdrust.Base.{codes, true, false, none, some, List, [], ◌∷◌, ◌≡◌, refl, arith, inr}
use qdrust.Base.Int.{pos, int_eq}
use qdrust.Notepad.{notepad_slot_action}
use qdrust.Notepad.Table.{Row, notepad_slot, notepad_slots, owner_notepad}
use qdrust.Notepad.Isolation.{write_query, action-others}
use qdrust.Notepad.Counts.{slot_count, has_slot}
use qdrust.Notepad.Limits.{IsBounded, action-IsBounded}

abbrev rows : List Row
rows =
    record { owner_id = 3; notepad_id = pos 1; content = some (codes "old") }
    ∷ record { owner_id = 4; notepad_id = pos 1; content = none }
    ∷ []

action-others_example :
    notepad_slot 4
      (pos 1)
      (notepad_slot_action (owner_notepad 3) (write_query (codes "1") (codes "new")) false rows).1
    ≡ notepad_slot 4 (pos 1) rows
action-others_example =
    action-others 3 4 (write_query (codes "1") (codes "new")) false rows (pos 1)
      (λ e. omega (arith, e))

rows-IsBounded : IsBounded 3 rows
unfolding slot_count has_slot notepad_slots notepad_slot int_eq
rows-IsBounded = record { within = omega arith; first = inr refl }

action-IsBounded_example :
    IsBounded 3 (notepad_slot_action (owner_notepad 3) ((codes "f", codes "add") ∷ []) true rows).1
action-IsBounded_example =
    action-IsBounded 3 ((codes "f", codes "add") ∷ []) true rows rows-IsBounded
