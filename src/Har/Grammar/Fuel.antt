-- ===== src/Har/Grammar/Fuel.antt =====
-- The fuel that `compile` gives to `parse_blocks` of qd_har.rs is never used up.
use qdrust.Base.{
  ℕ, zero, suc, ◌≤◌, ◌<◌, Text, Bool, true, false, not, is_blank, trim, Option, none, some, List,
  [], ◌∷◌, length, ok, err, ensure, >>=-err-elim, err-injective, ◌≡◌, ◌≢◌, ap, arith, Bool-cases,
  inl, inr,
}
use qdrust.Har.{Entry, Block, Blocks, if_block, for_block, while_block, request}
use qdrust.Har.Control.{Tag, plain, closing, if_tag, for_tag, while_tag, tag, current_statement}
use qdrust.Har.Compile.{
  CompileError, out_of_fuel, if_condition_empty, while_condition_empty, for_target_empty,
  for_source_empty, for_parts, Parser, Parsed, parse_blocks, parse_round, parse_tag, parse_if,
  parse_else, parse_while, prepend, consume_end, finish, stops_at, statement_is, endif, endfor,
  endwhile, else_statement, drop_first, compile_enabled, whole,
}
use qdrust.Har.Grammar.{Seq-length}
use qdrust.Har.Grammar.Sound.{
  Reads, parse_blocks-Reads, Else, without, with_branch, parse_else-Else, consume_end-Says,
}

abbrev Starved : Parsed → Type 0
Starved m = m ≡ err out_of_fuel

finish_fed : (end : Option Text) (rest : List Entry) → ¬ Starved (finish end rest)
unfolding finish
finish_fed none rest h = cc
finish_fed (some t) rest h = elim (Bool-cases (stops_at (some t) (current_statement rest))) [
  | inl e ↦ cc (rw e at h)
  | inr e ↦ cc (rw e at h)
]

ensure_fed : (b : Bool) (e : CompileError) → ensure b e ≡ err out_of_fuel → e ≡ out_of_fuel
ensure_fed true e h = cc
ensure_fed false e h = err-injective h

consume_end_fed : (rest : List Entry) (t : Text) → consume_end rest t ≢ err out_of_fuel
unfolding consume_end
consume_end_fed rest t h = elim (Bool-cases (statement_is (current_statement rest) t)) [
  | inl e ↦ cc (rw e at h)
  | inr e ↦ cc (rw e at h)
]

prepend_fed : (b : Block) (m : Parsed) → Starved (prepend b m) → Starved m
unfolding prepend
prepend_fed b (ok x) h = cc
prepend_fed b (err e) h = cc

drop_first-length : (es : List Entry) → length (drop_first es) ≤ length es
unfolding drop_first
drop_first-length [] = omega arith
drop_first-length (e ∷ es) = omega arith

module _ (p : Parser) (n : ℕ)
    (sound : (es : List Entry) (end : Option Text) (x : Blocks × List Entry)
      → p es end ≡ ok x
      → Reads end es x)
    (fed : (es : List Entry) (end : Option Text) → length es < n → ¬ Starved (p es end)) where
  shrinks :
      (es : List Entry) (end : Option Text) (x : Blocks × List Entry)
      → p es end ≡ ok x
      → length x.1 ≤ length es
  shrinks es end x h = Seq-length (sound es end x h).0

  closed_shrinks :
      (rest r : List Entry) (t : Text) → consume_end rest t ≡ ok r → length r ≤ length rest
  closed_shrinks rest r t h =
      let (k, split, says) = consume_end-Says rest r t h in omega (arith, ap length split)

  shorter_rest :
      (rest : List Entry) (x : Blocks × List Entry) → Else rest x → length x.1 ≤ length rest
  shorter_rest rest x (without a b) = omega (arith, ap length b)
  shorter_rest rest x (with_branch k r split says s) = omega (arith, ap length split, Seq-length s)

  parse_else_fed : (rest : List Entry) → length rest < n → ¬ Starved (parse_else p rest)
  unfolding parse_else
  parse_else_fed rest l h =
      elim (Bool-cases (statement_is (current_statement rest) else_statement)) [
        | inl e ↦
            fed (drop_first rest) (some endif) (omega (arith, drop_first-length rest)) (rw e at h)
        | inr e ↦ cc (rw e at h)
      ]

  parse_if_fed :
      (c : Text) (es : List Entry) (end : Option Text)
      → length es < n
      → ¬ Starved (parse_if p c es end)
  unfolding parse_if
  parse_if_fed c es end l h =
      >>=-err-elim (ensure (not (is_blank c)) if_condition_empty) _ h (λ e. cc (ensure_fed _ _ e))
        λ u filled h1.
          >>=-err-elim (p es (some endif)) _ h1 (fed es (some endif) l) λ ts then_read h2.
            >>=-err-elim (parse_else p ts.1) _ h2
              (parse_else_fed ts.1 (omega (arith, shrinks es (some endif) ts then_read)))
              λ fs else_read h3.
                >>=-err-elim (consume_end fs.1 endif) _ h3 (consume_end_fed fs.1 endif)
                  λ rest closed h4.
                    fed rest end
                      (omega (
                        arith,
                        shrinks es (some endif) ts then_read,
                        shorter_rest ts.1 fs (parse_else-Else p sound ts.1 fs else_read),
                        closed_shrinks fs.1 rest endif closed,
                      ))
                      (prepend_fed (if_block (trim c) ts.0 fs.0) (p rest end) h4)

  parse_while_fed :
      (c : Text) (es : List Entry) (end : Option Text)
      → length es < n
      → ¬ Starved (parse_while p c es end)
  unfolding parse_while
  parse_while_fed c es end l h =
      >>=-err-elim (ensure (not (is_blank c)) while_condition_empty) _ h
        (λ e. cc (ensure_fed _ _ e))
        λ u filled h1.
          >>=-err-elim (p es (some endwhile)) _ h1 (fed es (some endwhile) l) λ body body_read h2.
            >>=-err-elim (consume_end body.1 endwhile) _ h2 (consume_end_fed body.1 endwhile)
              λ rest closed h3.
                fed rest end
                  (omega (
                    arith,
                    shrinks es (some endwhile) body body_read,
                    closed_shrinks body.1 rest endwhile closed,
                  ))
                  (prepend_fed (while_block (trim c) body.0) (p rest end) h3)

  for_parts_fed :
      (o : Option (Text × Text)) (es : List Entry) (end : Option Text)
      → length es < n
      → ¬ Starved (for_parts p o es end)
  unfolding for_parts
  for_parts_fed none es end l h = cc
  for_parts_fed (some (t, s)) es end l h =
      >>=-err-elim (ensure (not (is_blank t)) for_target_empty) _ h (λ e. cc (ensure_fed _ _ e))
        λ u filled h1.
          >>=-err-elim (ensure (not (is_blank s)) for_source_empty) _ h1
            (λ e. cc (ensure_fed _ _ e))
            λ v filled' h2.
              >>=-err-elim (p es (some endfor)) _ h2 (fed es (some endfor) l) λ body body_read h3.
                >>=-err-elim (consume_end body.1 endfor) _ h3 (consume_end_fed body.1 endfor)
                  λ rest closed h4.
                    fed rest end
                      (omega (
                        arith,
                        shrinks es (some endfor) body body_read,
                        closed_shrinks body.1 rest endfor closed,
                      ))
                      (prepend_fed (for_block (trim t) (trim s) body.0) (p rest end) h4)

  parse_tag_fed :
      (a : Tag) (total : ℕ) (e : Entry) (es : List Entry) (end : Option Text)
      → length es < n
      → ¬ Starved (parse_tag p a total e es end)
  unfolding parse_tag
  parse_tag_fed plain total e es end l h = fed es end l (prepend_fed (request e) (p es end) h)
  parse_tag_fed (closing s) total e es none l h = cc
  parse_tag_fed (closing s) total e es (some t) l h = finish_fed (some t) (e ∷ es) h
  parse_tag_fed (if_tag c) total e es end l h = parse_if_fed c es end l h
  parse_tag_fed (for_tag x) total e es end l h = for_parts_fed _ es end l h
  parse_tag_fed (while_tag c) total e es end l h = parse_while_fed c es end l h

  parse_round_fed :
      (total : ℕ) (es : List Entry) (end : Option Text)
      → length es < suc n
      → ¬ Starved (parse_round p total es end)
  unfolding parse_round
  parse_round_fed total [] end l h = finish_fed end [] h
  parse_round_fed total (e ∷ es) end l h = parse_tag_fed (tag e) total e es end (omega arith) h

parse_blocks_fed :
    (f total : ℕ) (es : List Entry) (end : Option Text)
    → length es < f
    → ¬ Starved (parse_blocks f total es end)
unfolding parse_blocks
parse_blocks_fed zero total es end l h = elim l [ ]
parse_blocks_fed (suc f) total es end l h =
    parse_round_fed (parse_blocks f total) f (parse_blocks-Reads f total) (parse_blocks_fed f total)
      total es end l h

whole_fed : (x : Blocks × List Entry) → whole x ≢ err out_of_fuel
unfolding whole
whole_fed (bs, []) h = cc
whole_fed (bs, e ∷ es) h = cc

pub compile_enabled_fed : (es : List Entry) → compile_enabled es ≢ err out_of_fuel
unfolding compile_enabled
compile_enabled_fed es h =
    >>=-err-elim (parse_blocks (suc (length es)) (length es) es none) whole h
      (parse_blocks_fed (suc (length es)) (length es) es none (omega arith))
      λ x read done. whole_fed x done
