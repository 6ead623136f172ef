-- ===== src/Notepad/Limits.antt =====
-- How many slots a notepad of plugin.rs has.
use qdrust.Base.{
  ℕ, leb, ltb, ◌≤◌, ◌<◌, Text, codes, contains, Bool, true, false, not, any, is_empty, Option, none,
  some, or_else, List, [], length, if◌then◌else◌, ◌≡◌, refl, sym, ap, ◌∙◌, arith, Bool-cases, inl,
  inr, ◌⊎◌,
}
use mathlib.Core.Bool.{true≢false}
use qdrust.Base.Dict.{Dict, lookup}
use qdrust.Base.Int.{ℤ, pos, negsuc, less, int_eq, int_eq_refl, int_eq→eq}
use qdrust.Scheduler.Trace.{byte_length}
use qdrust.Notepad.{
  NotepadSlot, missing, stored, NotepadStore, Answer, notepad_limit, content_limit, sort, put,
  refuse, add_slot, delete_slot, notepad_list_action, opened, store_body, use_slot, with_slot,
  at_slot, notepad_slot_action,
}
use qdrust.Notepad.Table.{
  Row, notepad_slot, notepad_slots, owner_notepad, notepad_write, notepad_remove,
}
use qdrust.Notepad.Counts.{
  length-sort, is_stored, is_empty-length, slot_count, has_slot, has-write, has-remove,
  count-write-le, count-write-same, count-remove-le,
}

module _ (owner : ℕ) where
  -- At most twenty slots, of which slot 1 is one where there are any.
  pub record IsBounded (rows : List Row) : Type 0 where
    pub within : slot_count owner rows ≤ notepad_limit
    pub first : (slot_count owner rows ≡ 0) ⊎ (has_slot owner (pos 1) rows ≡ true)

  write_new :
      (slot : ℤ) (content : Option Text) (rows : List Row)
      → slot_count owner rows < notepad_limit
      → has_slot owner (pos 1) rows ≡ true
      → IsBounded (notepad_write owner slot content rows)
  write_new slot content rows l h = record {
    within = omega (arith, l, count-write-le owner slot content rows);
    first = inr (has-write owner slot (pos 1) content rows ∙ ground (arith, h));
  }

  write_old :
      (slot : ℤ) (content : Option Text) (rows : List Row)
      → has_slot owner slot rows ≡ true
      → IsBounded rows
      → IsBounded (notepad_write owner slot content rows)
  write_old slot content rows h v = record {
    within = rw (count-write-same owner slot content rows h) v.within;
    first = elim v.first [
      | inl e ↦ inl (count-write-same owner slot content rows h ∙ e)
      | inr e ↦ inr (has-write owner slot (pos 1) content rows ∙ ground (arith, e))
    ];
  }

  write_first :
      (slot : ℤ) (content : Option Text) (rows : List Row)
      → int_eq slot (pos 1) ≡ true
      → slot_count owner rows ≡ 0
      → IsBounded (notepad_write owner slot content rows)
  write_first slot content rows i e = record {
    within = omega (arith, e, count-write-le owner slot content rows);
    first = inr (has-write owner slot (pos 1) content rows ∙ ground (arith, i));
  }

  has-stored :
      (slot : ℤ) (rows : List Row) {content : Option Text}
      → notepad_slot owner slot rows ≡ stored content
      → has_slot owner slot rows ≡ true
  unfolding has_slot is_stored
  has-stored slot rows h = ap is_stored h

  -- Without slot 1 there are no slots.
  none_without_first :
      (slot : ℤ) (rows : List Row)
      → int_eq slot (pos 1) ≡ true
      → notepad_slot owner slot rows ≡ missing
      → IsBounded rows
      → slot_count owner rows ≡ 0
  unfolding has_slot is_stored
  none_without_first slot rows i h v = elim v.first [
    | inl e ↦ e
    | inr e ↦ absurd (true≢false (sym e ∙ ap is_stored (rw (int_eq→eq slot (pos 1) i) at h)))
  ]

  remove_other :
      (slot : ℤ) (rows : List Row)
      → int_eq slot (pos 1) ≡ false
      → IsBounded rows
      → IsBounded (notepad_remove owner slot rows)
  remove_other slot rows n v = record {
    within = omega (arith, v.within, count-remove-le owner slot rows);
    first = elim v.first [
      | inl e ↦ inl (omega (arith, e, count-remove-le owner slot rows))
      | inr e ↦ inr (has-remove owner slot (pos 1) rows ∙ ground (arith, e, n))
    ];
  }

  abbrev notepad : NotepadStore (List Row)
  notepad = owner_notepad owner

  -- What holds where a test comes out one way and where it comes out the other.
  decided :
      (test : Bool) (a b : Answer (List Row))
      → (test ≡ true → IsBounded a.1)
      → (test ≡ false → IsBounded b.1)
      → IsBounded (if test then a else b).1
  decided true a b p q = p refl
  decided false a b p q = q refl

  add-IsBounded :
      (slots : List ℤ) (content : Option Text) (slot : ℤ) (rows : List Row)
      → length slots ≡ slot_count owner rows
      → has_slot owner (pos 1) rows ≡ true
      → IsBounded rows
      → IsBounded (add_slot notepad slots content slot rows).1
  unfolding add_slot put refuse owner_notepad
  add-IsBounded slots content slot rows e h v =
      decided (leb notepad_limit (length slots)) _ _ (λ t. v)
        (λ t.
          let l : slot_count owner rows < notepad_limit = ground (arith, t, e) in
          decided (int_eq slot (negsuc 0)) _ _ (λ u. write_new _ content rows l h)
            (λ u.
              decided (any (int_eq slot) slots) _ _ (λ w. v)
                (λ w. write_new slot content rows l h)))

  delete-IsBounded :
      (slots : List ℤ) (slot : ℤ) (rows : List Row)
      → IsBounded rows
      → IsBounded (delete_slot notepad slots slot rows).1
  unfolding delete_slot refuse owner_notepad
  delete-IsBounded slots slot rows v =
      decided (less slot (pos 1)) _ _ (λ t. v)
        (λ t.
          decided (not (any (int_eq slot) slots)) _ _ (λ u. v)
            (λ u. decided (int_eq slot (pos 1)) _ _ (λ w. v) (λ w. remove_other slot rows w v)))

  list-IsBounded :
      (query : Dict Text) (flag : Text) (slot : ℤ) (rows : List Row)
      → IsBounded rows
      → IsBounded (notepad_list_action notepad query flag slot rows).1
  unfolding notepad_list_action refuse owner_notepad slot_count
  list-IsBounded query flag slot rows v =
      let slots = sort (notepad_slots owner rows) in
      decided (is_empty slots) _ _ (λ t. v)
        (λ t.
          let h : has_slot owner (pos 1) rows ≡ true = elim v.first [
            | inl e ↦ absurd (is_empty-length slots t (length-sort _ ∙ e))
            | inr e ↦ e
          ] in
          decided (contains (codes "add") flag) _ _
            (λ u. add-IsBounded slots _ slot rows (length-sort _) h v)
            (λ u.
              decided (contains (codes "delete") flag) _ _ (λ w. delete-IsBounded slots slot rows v)
                (λ w. decided (contains (codes "list") flag) _ _ (λ z. v) (λ z. v))))

  body-IsBounded :
      (slot : ℤ) (body : Text) (rows : List Row)
      → has_slot owner slot rows ≡ true
      → IsBounded rows
      → IsBounded (store_body notepad slot body rows).1
  unfolding store_body put refuse owner_notepad
  body-IsBounded slot body rows h v =
      decided (ltb content_limit (byte_length body)) _ _ (λ t. v)
        (λ t. write_old slot (some body) rows h v)

  use-IsBounded :
      (flag given : Text) (slot : ℤ) (content : Option Text) (rows : List Row)
      → has_slot owner slot rows ≡ true
      → IsBounded rows
      → IsBounded (use_slot notepad flag given slot content rows).1
  unfolding use_slot
  use-IsBounded flag given slot content rows h v =
      decided (contains (codes "write") flag) _ _ (λ t. body-IsBounded slot given rows h v)
        (λ t.
          decided (contains (codes "append") flag) _ _ (λ u. body-IsBounded slot _ rows h v)
            (λ u. v))

  opened-IsBounded :
      (flag given : Text) (slot : ℤ) (row : NotepadSlot) (rows : List Row)
      → notepad_slot owner slot rows ≡ row
      → IsBounded rows
      → IsBounded (with_slot notepad flag given slot (opened notepad slot row rows)).1
  unfolding opened with_slot refuse owner_notepad
  opened-IsBounded flag given slot (stored content) rows h v =
      use-IsBounded flag given slot content rows (has-stored slot rows h) v
  opened-IsBounded flag given slot missing rows h v = elim (Bool-cases (int_eq slot (pos 1))) [
    | inl e ↦ rw e (
        use-IsBounded flag given slot none _
          (has-write owner slot slot none rows ∙ ground (arith, int_eq_refl slot))
          (write_first slot none rows e (none_without_first slot rows e h v)))
    | inr e ↦ rw e v
  ]

  at-IsBounded :
      (query : Dict Text) (list : Bool) (flag : Text) (slot : Option ℤ) (rows : List Row)
      → IsBounded rows
      → IsBounded (at_slot notepad query list flag slot rows).1
  unfolding at_slot refuse owner_notepad
  at-IsBounded query list flag none rows v = v
  at-IsBounded query true flag (some slot) rows v = list-IsBounded query flag slot rows v
  at-IsBounded query false flag (some slot) rows v =
      opened-IsBounded flag _ slot (notepad_slot owner slot rows) rows refl v

  -- A call of either route keeps a notepad within twenty slots, of which slot 1 is one where there
  -- are any.
  pub action-IsBounded :
      (query : Dict Text) (list : Bool) (rows : List Row)
      → IsBounded rows
      → IsBounded (notepad_slot_action notepad query list rows).1
  unfolding notepad_slot_action refuse
  action-IsBounded query list rows v =
      let flag = or_else (lookup (codes "f") query) (if list then codes "list" else []) in
      decided (is_empty flag) _ _ (λ t. v) (λ t. at-IsBounded query list flag _ rows v)
