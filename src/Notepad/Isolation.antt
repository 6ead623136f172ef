-- ===== src/Notepad/Isolation.antt =====
-- What the notepad routes of plugin.rs touch, and what they read back.
use qdrust.Base.{
  ℕ, leb, ltb, ◌≤◌, Text, codes, contains, Bool, true, false, not, any, is_empty, Option, none,
  some, List, [], ◌∷◌, length, ok, if◌then◌else◌, ◌≡◌, ◌≢◌, refl, ◌∙◌, arith, Bool-cases, inl, inr,
}
use qdrust.Base.Dict.{Dict, lookup}
use qdrust.Base.Int.{ℤ, pos, negsuc, less, int_eq, int_eq_refl, parse_i64}
use qdrust.Scheduler.Trace.{byte_length}
use qdrust.Notepad.{
  NotepadSlot, missing, stored, NotepadStore, Answer, notepad_limit, content_limit, notepad_text,
  sort, slot_of, put, refuse, add_slot, delete_slot, notepad_list_action, opened, store_body,
  use_slot, with_slot, at_slot, notepad_slot_action,
}
use qdrust.Notepad.Table.{Row, notepad_slot, owner_notepad, notepad_write, slot-write, slot-remove}

module _ {S : Type 0} (notepad : NotepadStore S) (P : S → Type 0)
    (written : (slot : ℤ) (content : Option Text) (s : S) → P s → P (notepad.write slot content s))
    (deleted : (slot : ℤ) (s : S) → P s → P (notepad.delete slot s)) where
  if_from : (test : Bool) (a b : Answer S) → P a.1 → P b.1 → P (if test then a else b).1
  if_from true a b p q = p
  if_from false a b p q = q

  add_slot_from :
      (slots : List ℤ) (content : Option Text) (slot : ℤ) (s : S)
      → P s
      → P (add_slot notepad slots content slot s).1
  unfolding add_slot put refuse
  add_slot_from slots content slot s p = if_from (leb notepad_limit (length slots)) _ _ p (
      if_from (int_eq slot (negsuc 0)) _ _ (written _ content s p)
        (if_from (any (int_eq slot) slots) _ _ p (written slot content s p)))

  delete_slot_from :
      (slots : List ℤ) (slot : ℤ) (s : S) → P s → P (delete_slot notepad slots slot s).1
  unfolding delete_slot refuse
  delete_slot_from slots slot s p = if_from (less slot (pos 1)) _ _ p (
      if_from (not (any (int_eq slot) slots)) _ _ p
        (if_from (int_eq slot (pos 1)) _ _ p (deleted slot s p)))

  list_from :
      (query : Dict Text) (flag : Text) (slot : ℤ) (s : S)
      → P s
      → P (notepad_list_action notepad query flag slot s).1
  unfolding notepad_list_action refuse
  list_from query flag slot s p =
      let slots = sort (notepad.slots s) in
      if_from (is_empty slots) _ _ p (
        if_from (contains (codes "add") flag) _ _ (add_slot_from slots _ slot s p) (
          if_from (contains (codes "delete") flag) _ _ (delete_slot_from slots slot s p)
            (if_from (contains (codes "list") flag) _ _ p p)))

  opened_from : (slot : ℤ) (row : NotepadSlot) (s : S) → P s → P (opened notepad slot row s).1
  unfolding opened
  opened_from slot (stored content) s p = p
  opened_from slot missing s p = elim (Bool-cases (int_eq slot (pos 1))) [
    | inl e ↦ rw e (written slot none s p)
    | inr e ↦ rw e p
  ]

  body_from : (slot : ℤ) (body : Text) (s : S) → P s → P (store_body notepad slot body s).1
  unfolding store_body put refuse
  body_from slot body s p =
      if_from (ltb content_limit (byte_length body)) _ _ p (written slot (some body) s p)

  with_slot_from :
      (flag given : Text) (slot : ℤ) (o : Option (Option Text) × S)
      → P o.1
      → P (with_slot notepad flag given slot o).1
  unfolding with_slot use_slot refuse
  with_slot_from flag given slot (none, s) p = p
  with_slot_from flag given slot (some content, s) p =
      if_from (contains (codes "write") flag) _ _ (body_from slot given s p)
        (if_from (contains (codes "append") flag) _ _ (body_from slot _ s p) p)

  at_slot_from :
      (query : Dict Text) (list : Bool) (flag : Text) (slot : Option ℤ) (s : S)
      → P s
      → P (at_slot notepad query list flag slot s).1
  unfolding at_slot refuse
  at_slot_from query list flag none s p = p
  at_slot_from query true flag (some slot) s p = list_from query flag slot s p
  at_slot_from query false flag (some slot) s p =
      with_slot_from flag _ slot _ (opened_from slot _ s p)

  -- What writing and deleting a slot keep, both routes keep.
  pub action_from :
      (query : Dict Text) (list : Bool) (s : S)
      → P s
      → P (notepad_slot_action notepad query list s).1
  unfolding notepad_slot_action refuse
  action_from query list s p = if_from _ _ _ p (at_slot_from query list _ _ s p)

-- A call of either route by a run of one owner leaves every slot of another owner as it was.
pub action-others :
    (owner other : ℕ) (query : Dict Text) (list : Bool) (rows : List Row) (place : ℤ)
    → owner ≢ other
    → notepad_slot other place (notepad_slot_action (owner_notepad owner) query list rows).1
      ≡ notepad_slot other place rows
unfolding owner_notepad
action-others owner other query list rows place n =
    action_from (owner_notepad owner)
      (λ s. notepad_slot other place s ≡ notepad_slot other place rows)
      (λ slot content s e. slot-write owner other slot place content s ∙ ground (arith, e, n))
      (λ slot s e. slot-remove owner other slot place s ∙ ground (arith, e, n)) query list rows refl

abbrev pub write_query : Text → Text → Dict Text
write_query raw body =
    (codes "f", codes "write") ∷ (codes "id_notepad", raw) ∷ (codes "data", body) ∷ []

abbrev pub read_query : Text → Dict Text
read_query raw = (codes "f", codes "read") ∷ (codes "id_notepad", raw) ∷ []

read_answer :
    (owner : ℕ) (raw body : Text) (rows : List Row) {slot : ℤ}
    → parse_i64 raw ≡ some slot
    → notepad_slot owner slot rows ≡ stored (some body)
    → notepad_slot_action (owner_notepad owner) (read_query raw) false rows
      ≡ (ok (notepad_text body), rows)
unfolding notepad_slot_action slot_of at_slot opened with_slot use_slot owner_notepad lookup
    contains
read_answer owner raw body rows {slot} e h = rw (e, h) refl

write_answer :
    (owner : ℕ) (raw body : Text) (rows : List Row) {slot : ℤ} {content : Option Text}
    → parse_i64 raw ≡ some slot
    → notepad_slot owner slot rows ≡ stored content
    → byte_length body ≤ content_limit
    → notepad_slot_action (owner_notepad owner) (write_query raw body) false rows
      ≡ (ok (notepad_text body), notepad_write owner slot (some body) rows)
unfolding notepad_slot_action slot_of at_slot opened with_slot use_slot store_body put owner_notepad
    lookup contains
write_answer owner raw body rows {slot} e h l =
    let t : ltb content_limit (byte_length body) ≡ false = ground (arith, l) in rw (e, h, t) refl

-- A text of at most 5 MiB that a run writes to a slot that its owner has is answered with that text,
-- and a later read of the slot, by the same owner, is answered with the same text and changes
-- nothing.
pub read-write :
    (owner : ℕ) (raw body : Text) (rows : List Row) {slot : ℤ} {content : Option Text}
    → parse_i64 raw ≡ some slot
    → notepad_slot owner slot rows ≡ stored content
    → byte_length body ≤ content_limit
    → let out = notepad_slot_action (owner_notepad owner) (write_query raw body) false rows in
      (out.0 ≡ ok (notepad_text body))
      × (notepad_slot_action (owner_notepad owner) (read_query raw) false out.1
          ≡ (ok (notepad_text body), out.1))
read-write owner raw body rows {slot} e h l = rw (write_answer owner raw body rows e h l) (
  refl,
  read_answer owner raw body _ e
      (slot-write owner owner slot slot (some body) rows ∙ ground (arith, int_eq_refl slot)),
)
