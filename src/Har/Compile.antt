-- ===== src/Har/Compile.antt =====
-- `QdProgram::compile` and `parse_blocks` of qd_har.rs. The cursor is the list of the entries that
-- are left. The fuel bounds the depth of the calls: one more than the number of entries is enough.
use qdrust.Base.{
  ℕ, zero, suc, ◌-◌, Text, codes, text_eq, trim, is_blank, split_once, Bool, true, false, not, ◌&&◌,
  ◌||◌, Option, none, some, or_else, List, [], ◌∷◌, length, keep_if, Result, ok, err, ensure, ◌>>=◌,
  ◌>>◌, if◌then◌else◌,
}
use qdrust.Har.{Entry, Block, Blocks, request, for_block, while_block, if_block, no_blocks, block}
use qdrust.Har.Control.{Tag, plain, closing, if_tag, for_tag, while_tag, tag, current_statement}

pub data CompileError : Type 0 where
  unexpected_control : ℕ → Text → CompileError
  if_condition_empty : CompileError
  for_malformed : CompileError
  for_target_empty : CompileError
  for_source_empty : CompileError
  while_condition_empty : CompileError
  expected : Text → Text → CompileError
  trailing_control : CompileError
  out_of_fuel : CompileError

-- The blocks that were read and the entries that are left.
abbrev pub Parsed : Type 0
Parsed = Result CompileError (Blocks × List Entry)

abbrev pub Parser : Type 0
Parser = List Entry → Option Text → Parsed

abbrev pub endif : Text
endif = codes "endif"

abbrev pub endfor : Text
endfor = codes "endfor"

abbrev pub endwhile : Text
endwhile = codes "endwhile"

abbrev pub else_statement : Text
else_statement = codes "else"

abbrev pub end_of_har : Text
end_of_har = codes "end of HAR"

-- `actual == Some(text)`
unfoldable pub statement_is : Option Text → Text → Bool
statement_is none t = false
statement_is (some s) t = text_eq s t

unfoldable pub drop_first : List Entry → List Entry
drop_first [] = []
drop_first (e ∷ es) = es

unfoldable pub consume_end : List Entry → Text → Result CompileError (List Entry)
unfolding statement_is drop_first
consume_end rest end_text =
    if statement_is (current_statement rest) end_text
    then ok (drop_first rest)
    else err (expected end_text (or_else (current_statement rest) end_of_har))

-- The test after the loop.
unfoldable pub stops_at : Option Text → Option Text → Bool
unfolding statement_is
stops_at none actual = true
stops_at (some end_text) actual =
    statement_is actual end_text || text_eq end_text endif && statement_is actual else_statement

unfoldable pub finish : Option Text → List Entry → Parsed
unfolding stops_at
finish none rest = ok (no_blocks, rest)
finish (some end_text) rest =
    if stops_at (some end_text) (current_statement rest)
    then ok (no_blocks, rest)
    else err (expected end_text (or_else (current_statement rest) end_of_har))

-- `blocks.push(b)`, and the rest of the loop.
unfoldable pub prepend : Block → Parsed → Parsed
prepend b (ok (bs, rest)) = ok (block b bs, rest)
prepend b (err e) = err e

-- The branches of one round of the loop, over the recursive call, the number of all entries, the
-- entry and those behind it.
module _ (parse : Parser) where
  unfoldable pub parse_else : List Entry → Parsed
  unfolding statement_is drop_first
  parse_else rest =
      if statement_is (current_statement rest) else_statement
      then parse (drop_first rest) (some endif)
      else ok (no_blocks, rest)

  unfoldable pub parse_if : Text → List Entry → Option Text → Parsed
  unfolding parse_else consume_end prepend
  parse_if condition es end = do
    ensure (not (is_blank condition)) if_condition_empty
    then_part ← parse es (some endif)
    else_part ← parse_else then_part.1
    rest ← consume_end else_part.1 endif
    prepend (if_block (trim condition) then_part.0 else_part.0) (parse rest end)

  unfoldable pub for_parts : Option (Text × Text) → List Entry → Option Text → Parsed
  unfolding consume_end prepend
  for_parts none es end = err for_malformed
  for_parts (some (target, source)) es end = do
    ensure (not (is_blank target)) for_target_empty
    ensure (not (is_blank source)) for_source_empty
    body ← parse es (some endfor)
    rest ← consume_end body.1 endfor
    prepend (for_block (trim target) (trim source) body.0) (parse rest end)

  unfoldable pub parse_for : Text → List Entry → Option Text → Parsed
  unfolding for_parts
  parse_for expression es end = for_parts (split_once (codes " in ") expression) es end

  unfoldable pub parse_while : Text → List Entry → Option Text → Parsed
  unfolding consume_end prepend
  parse_while condition es end = do
    ensure (not (is_blank condition)) while_condition_empty
    body ← parse es (some endwhile)
    rest ← consume_end body.1 endwhile
    prepend (while_block (trim condition) body.0) (parse rest end)

  unfoldable pub parse_closing : ℕ → Text → Entry → List Entry → Option Text → Parsed
  unfolding finish
  parse_closing total s e es none = err (unexpected_control (total - length es) s)
  parse_closing total s e es (some end_text) = finish (some end_text) (e ∷ es)

  unfoldable pub parse_tag : Tag → ℕ → Entry → List Entry → Option Text → Parsed
  unfolding parse_if parse_for parse_while parse_closing prepend
  parse_tag plain total e es end = prepend (request e) (parse es end)
  parse_tag (closing s) total e es end = parse_closing total s e es end
  parse_tag (if_tag c) total e es end = parse_if c es end
  parse_tag (for_tag x) total e es end = parse_for x es end
  parse_tag (while_tag c) total e es end = parse_while c es end

  unfoldable pub parse_round : ℕ → List Entry → Option Text → Parsed
  unfolding parse_tag finish
  parse_round total [] end = finish end []
  parse_round total (e ∷ es) end = parse_tag (tag e) total e es end

unfoldable pub parse_blocks : ℕ → ℕ → Parser
unfolding parse_round
parse_blocks zero total rest end = err out_of_fuel
parse_blocks (suc fuel) total rest end = parse_round (parse_blocks fuel total) total rest end

unfoldable pub whole : Blocks × List Entry → Result CompileError Blocks
whole (bs, []) = ok bs
whole (bs, e ∷ es) = err trailing_control

unfoldable pub enabled_entries : List Entry → List Entry
enabled_entries = keep_if (λ e. e.checked)

-- `compile`, over the enabled entries.
unfoldable pub compile_enabled : List Entry → Result CompileError Blocks
unfolding parse_blocks whole
compile_enabled es = parse_blocks (suc (length es)) (length es) es none >>= whole

unfoldable pub compile : List Entry → Result CompileError Blocks
unfolding compile_enabled enabled_entries
compile entries = compile_enabled (enabled_entries entries)
