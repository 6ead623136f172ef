-- ===== src/Executor/Loops.antt =====
-- The loop variables of executor.rs.
pub mod Laws
pub mod While
use qdrust.Base.{
  ℕ, suc, ◌+◌, ◌-◌, ◌==◌, Text, codes, Bool, Option, none, some, List, [], ◌∷◌, map, Result, ok,
  err, if◌then◌else◌,
}
use qdrust.Base.Dict.{Dict, lookup, insert}
use qdrust.Base.Decimal.{to_string, parse_usize}
use qdrust.Json.{Value, array, object, string, item_list, field_names, as_str}
use qdrust.Executor.{ExecError, not_iterable}

unfoldable pub iterable_values : Value → Result ExecError (List Value)
iterable_values (array vs) = ok (item_list vs)
iterable_values (object fs) = ok (map string (field_names fs))
iterable_values (string t) = ok (map (λ c. string (c ∷ [])) t)
iterable_values _ = err not_iterable

unfoldable pub truth : Bool → Value
truth b = string (if b then codes "True" else codes "False")

unfoldable pub numeral : ℕ → Value
numeral n = string (to_string n)

unfoldable pub set_loop_variables : ℕ → ℕ → Dict Value → Dict Value
unfolding truth numeral
set_loop_variables index length v0 =
    let v1 = insert (codes "loop_index0") (numeral index) v0 in
    let v2 = insert (codes "loop_index") (numeral (index + 1)) v1 in
    let v3 = insert (codes "loop_first") (truth (index == 0)) v2 in
    let v4 = insert (codes "loop_last") (truth (index + 1 == length)) v3 in
    let v5 = insert (codes "loop_length") (numeral length) v4 in
    let v6 = insert (codes "loop_revindex0") (numeral (length - index - 1)) v5 in
    insert (codes "loop_revindex") (numeral (length - index)) v6

unfoldable pub usize_text : Option Text → Option ℕ
usize_text none = none
usize_text (some t) = parse_usize t

unfoldable pub usize_value : Option Value → Option ℕ
unfolding as_str usize_text
usize_value none = none
usize_value (some v) = usize_text (as_str v)

-- `variables.get("loop_depth")` as a number, where it is the text of one.
unfoldable pub loop_depth : Dict Value → Option ℕ
unfolding usize_value
loop_depth variables = usize_value (lookup (codes "loop_depth") variables)

unfoldable pub or_number : Option ℕ → ℕ → ℕ
or_number none d = d
or_number (some n) d = n

unfoldable pub enter_loop : Dict Value → Dict Value
enter_loop variables =
    let depth = or_number (loop_depth variables) 0 + 1 in
    insert (codes "loop_depth0") (numeral (depth - 1))
      (insert (codes "loop_depth") (numeral depth) variables)

-- `-` stops at 0, as `saturating_sub` does.
unfoldable pub leave_loop : Dict Value → Dict Value
leave_loop variables =
    let depth = or_number (loop_depth variables) 1 - 1 in
    insert (codes "loop_depth0") (if depth == 0 then string (codes "-1") else numeral (depth - 1))
      (insert (codes "loop_depth") (numeral depth) variables)
