-- ===== src/Notepad.antt =====
-- crates/qdrust-core/src/plugin.rs: the two routes `util/toolbox/notepad` and
-- `util/toolbox/notepad/list`, over the storage that the server hands in.
pub mod Table
pub mod Isolation
pub mod Counts
pub mod Limits
use qdrust.Base.{
  ℕ, ◌+◌, ◌*◌, ltb, leb, Text, codes, join, contains, Bool, true, false, not, ◌&&◌, ◌||◌, any,
  is_empty, Option, none, some, or_else, List, [], ◌∷◌, ◌++◌, map, length, Result, ok, err,
  if◌then◌else◌,
}
use qdrust.Base.Dict.{Dict, lookup}
use qdrust.Base.Int.{ℤ, pos, negsuc, less, int_eq, increment, int_text, parse_i64}
use qdrust.Scheduler.Trace.{byte_length}

-- No row, or a row, of which the content may be NULL.
pub data NotepadSlot : Type 0 where
  missing : NotepadSlot
  stored : Option Text → NotepadSlot

-- The storage as operations on a state; a call of it that fails is not modelled.
pub record NotepadStore (S : Type 0) : Type 0 where
  pub read : ℤ → S → NotepadSlot
  pub write : ℤ → Option Text → S → S
  pub slots : S → List ℤ
  pub delete : ℤ → S → S

pub record Response : Type 0 where
  pub status : ℕ
  pub body : Text

-- The answer, or the text of the executor's error.
abbrev pub Answer : Type 0 → Type 0
Answer S = Result Text Response × S

abbrev pub notepad_limit : ℕ
notepad_limit = 20

abbrev pub content_limit : ℕ
content_limit = 5 * 1024 * 1024

unfoldable pub notepad_text : Text → Response
notepad_text body = record { status = 200; body = body }

unfoldable pub notepad_error : Text → Response
notepad_error message = record { status = 400; body = message }

insert_sorted : ℤ → List ℤ → List ℤ
insert_sorted x [] = x ∷ []
insert_sorted x (y ∷ ys) = if less y x then y ∷ insert_sorted x ys else x ∷ y ∷ ys

-- `sort_unstable`
unfoldable pub sort : List ℤ → List ℤ
unfolding insert_sorted
sort [] = []
sort (x ∷ xs) = insert_sorted x (sort xs)

last_or_zero : List ℤ → ℤ
last_or_zero [] = pos 0
last_or_zero (x ∷ []) = x
last_or_zero (x ∷ y ∷ ys) = last_or_zero (y ∷ ys)

non_empty : Option Text → Option Text
non_empty none = none
non_empty (some t) = if is_empty t then none else some t

-- −1 stands for a slot that was not given.
unfoldable pub slot_of : Bool → Text → Option ℤ
slot_of list raw = if list && is_empty raw then some (negsuc 0) else parse_i64 raw

module _ {S : Type 0} (notepad : NotepadStore S) where
  put : ℤ → Option Text → Text → S → Answer S
  unfolding notepad_text
  put slot content message s = (ok (notepad_text message), notepad.write slot content s)

  refuse : Text → S → Answer S
  unfolding notepad_error
  refuse message s = (ok (notepad_error message), s)

  unfoldable pub add_slot : List ℤ → Option Text → ℤ → S → Answer S
  unfolding put refuse last_or_zero
  add_slot slots content slot s =
      let target = increment (last_or_zero slots) in
      if leb notepad_limit (length slots)
      then refuse (codes "记事本数量超过上限, limit: 20") s
      else if int_eq slot (negsuc 0)
      then put target content (codes "添加成功, id_notepad: " ++ int_text target) s
      else if any (int_eq slot) slots
      then refuse (codes "记事本编号已存在, id_notepad: " ++ int_text slot) s
      else put slot content (codes "添加成功, id_notepad: " ++ int_text slot) s

  unfoldable pub delete_slot : List ℤ → ℤ → S → Answer S
  unfolding refuse notepad_text
  delete_slot slots slot s =
      if less slot (pos 1)
      then refuse (codes "id_notepad参数不完整, 请确认") s
      else if not (any (int_eq slot) slots)
      then refuse (codes "记事本编号不存在, id_notepad: " ++ int_text slot) s
      else if int_eq slot (pos 1)
      then refuse (codes "默认记事本不能删除") s
      else (ok (notepad_text (codes "删除成功, id_notepad: " ++ int_text slot)), notepad.delete slot s)

  unfoldable pub notepad_list_action : Dict Text → Text → ℤ → S → Answer S
  unfolding add_slot delete_slot refuse sort non_empty notepad_text
  notepad_list_action query flag slot s =
      let slots = sort (notepad.slots s) in
      if is_empty slots
      then refuse (codes "无法获取该用户记事本编号") s
      else if contains (codes "add") flag
      then add_slot slots (non_empty (lookup (codes "data") query)) slot s
      else if contains (codes "delete") flag
      then delete_slot slots slot s
      else if contains (codes "list") flag
      then (ok (notepad_text (codes "[" ++ join (codes ", ") (map int_text slots) ++ codes "]")), s)
      else refuse (codes "参数不完整, 请确认") s

  -- Slot 1 is made when it is first used; any other missing slot is refused.
  unfoldable pub opened : ℤ → NotepadSlot → S → Option (Option Text) × S
  opened slot (stored content) s = (some content, s)
  opened slot missing s =
      if int_eq slot (pos 1) then (some none, notepad.write slot none s) else (none, s)

  appended : Option Text → Text → Text
  appended none written = written
  appended (some existing) written = existing ++ codes "\r\n" ++ written

  store_body : ℤ → Text → S → Answer S
  unfolding put refuse byte_length
  store_body slot body s =
      if ltb content_limit (byte_length body)
      then refuse (codes "记事本内容超过上限, limit: 5242880") s
      else put slot (some body) body s

  unfoldable pub use_slot : Text → Text → ℤ → Option Text → S → Answer S
  unfolding store_body appended notepad_text
  use_slot flag written slot content s =
      if contains (codes "write") flag
      then store_body slot written s
      else if contains (codes "append") flag
      then store_body slot (appended content written) s
      else (ok (notepad_text (or_else content [])), s)

  with_slot : Text → Text → ℤ → Option (Option Text) × S → Answer S
  unfolding use_slot refuse
  with_slot flag written slot (none, s) = refuse (codes "记事本不存在") s
  with_slot flag written slot (some content, s) = use_slot flag written slot content s

  at_slot : Dict Text → Bool → Text → Option ℤ → S → Answer S
  unfolding notepad_list_action with_slot opened refuse
  at_slot query list flag none s =
      refuse
        (codes "id_notepad 不是一个整数: "
          ++ or_else (lookup (codes "id_notepad") query) (if list then [] else codes "1"))
        s
  at_slot query true flag (some slot) s = notepad_list_action query flag slot s
  at_slot query false flag (some slot) s =
      with_slot flag (or_else (lookup (codes "data") query) []) slot
        (opened slot (notepad.read slot s) s)

  unfoldable pub notepad_slot_action : Dict Text → Bool → S → Answer S
  unfolding at_slot slot_of refuse
  notepad_slot_action query list s =
      let flag = or_else (lookup (codes "f") query) (if list then codes "list" else []) in
      let raw = or_else (lookup (codes "id_notepad") query) (if list then [] else codes "1") in
      if is_empty flag
      then refuse (codes (if list then "参数不完整, 请确认" else "参数不完整，请确认")) s
      else at_slot query list flag (slot_of list raw) s

-- A run without storage, as the command line's, has no notepad.
unfoldable pub notepad_route :
    {S : Type 0} → Option (NotepadStore S) → Dict Text → Bool → S → Answer S
unfolding notepad_slot_action
notepad_route none query list s = (err (codes "no notepad storage is attached to this run"), s)
notepad_route (some notepad) query list s = notepad_slot_action notepad query list s
