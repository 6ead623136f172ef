-- ===== src/Har/Grammar/Complete.antt =====
-- What the grammar derives, `parse_blocks` of qd_har.rs reads.
use qdrust.Base.{
  ℕ, zero, suc, ◌<◌, Text, text_eq, text_eq_refl, true, Option, none, some, List, [], ◌∷◌, length,
  ok, ◌≡◌, refl, arith,
}
use qdrust.Har.{Entry, Blocks, no_blocks}
use qdrust.Har.Control.{closing, classify, tag, current_statement}
use qdrust.Har.Compile.{
  parse_blocks, consume_end, stops_at, endif, endfor, endwhile, else_statement, compile_enabled,
  statement_is, Parser, parse_else,
}
use qdrust.Har.Grammar.{
  Says, Seq, seq_end, seq_request, seq_if, seq_if_else, seq_for, seq_while, Seq-length,
}

-- A place where the loop of a call with this end stops.
abbrev Stops : Option Text → List Entry → Type 0
Stops none rest = rest ≡ []
Stops (some t) rest =
    (k : Entry) × (r : List Entry) × (rest ≡ k ∷ r)
    × (s : Text) × Says k s
    × (classify (some s) ≡ closing s)
    × (stops_at (some t) (some s) ≡ true)

tag_of : (e : Entry) {s : Text} → Says e s → tag e ≡ classify (some s)
unfolding tag
tag_of e h = rw h

text_of_statement :
    (k : Entry) (r : List Entry) (t : Text) {s : Text}
    → Says k s
    → statement_is (current_statement (k ∷ r)) t ≡ text_eq s t
unfolding current_statement statement_is
text_of_statement k r t h = rw h

stop :
    (f total : ℕ) (end : Option Text) (rest : List Entry)
    → Stops end rest
    → parse_blocks (suc f) total rest end ≡ ok (no_blocks, rest)
unfolding parse_blocks current_statement
stop f total none rest e = rw e
stop f total (some t) rest (k, r, e, s, says, c, st) =
    rw (e, tag_of k says, c, current_statement, says, st)

consume_end_lem : (k : Entry) (r : List Entry) (t : Text) → Says k t → consume_end (k ∷ r) t ≡ ok r
unfolding consume_end current_statement
consume_end_lem k r t h = rw (h, text_eq_refl t)

else_skipped :
    (p : Parser) (k : Entry) (r : List Entry)
    → Says k endif
    → parse_else p (k ∷ r) ≡ ok (no_blocks, k ∷ r)
unfolding parse_else current_statement
else_skipped p k r h = rw h

else_taken :
    (p : Parser) (k : Entry) (r : List Entry)
    → Says k else_statement
    → parse_else p (k ∷ r) ≡ p r (some endif)
unfolding parse_else current_statement
else_taken p k r h = rw h

-- The ends at which the parts of a block stop.
module _ (k : Entry) (r : List Entry) where
  at_endif : Says k endif → Stops (some endif) (k ∷ r)
  unfolding classify stops_at
  at_endif h = (k, r, refl, endif, h, refl, refl)

  at_else : Says k else_statement → Stops (some endif) (k ∷ r)
  unfolding classify stops_at
  at_else h = (k, r, refl, else_statement, h, refl, refl)

  at_endfor : Says k endfor → Stops (some endfor) (k ∷ r)
  unfolding classify stops_at
  at_endfor h = (k, r, refl, endfor, h, refl, refl)

  at_endwhile : Says k endwhile → Stops (some endwhile) (k ∷ r)
  unfolding classify stops_at
  at_endwhile h = (k, r, refl, endwhile, h, refl, refl)

Seq-parse :
    (f total : ℕ) {es rest : List Entry} {bs : Blocks} (end : Option Text)
    → Seq es bs rest
    → Stops end rest
    → length es < f
    → parse_blocks f total es end ≡ ok (bs, rest)
unfolding parse_blocks
Seq-parse zero total end q st h = elim h [ ]
Seq-parse (suc f) total end (seq_end {es}) st h = stop f total end es st
Seq-parse (suc f) total end (seq_request t q) st h =
    rw (t, Seq-parse f total end q st (omega arith))
Seq-parse (suc f) total end (seq_if {k} {r = r} t b q says u) st h = rw (
  t,
  b,
  Seq-parse f total (some endif) q (at_endif k r says) (omega arith),
  else_skipped (parse_blocks f total) k r says,
  consume_end_lem k r endif says,
  Seq-parse f total end u st (omega (arith, Seq-length q)),
)
Seq-parse (suc f) total end (seq_if_else {k} {l} {r = r} {q = rest} t b q says u ends v) st h = rw (
  t,
  b,
  Seq-parse f total (some endif) q (at_else k r says) (omega arith),
  else_taken (parse_blocks f total) k r says,
  Seq-parse f total (some endif) u (at_endif l rest ends) (omega (arith, Seq-length q)),
  consume_end_lem l rest endif ends,
  Seq-parse f total end v st (omega (arith, Seq-length q, Seq-length u)),
)
Seq-parse (suc f) total end (seq_for {k} {r = r} t parts bt bs q says u) st h = rw (
  t,
  parts,
  bt,
  bs,
  Seq-parse f total (some endfor) q (at_endfor k r says) (omega arith),
  consume_end_lem k r endfor says,
  Seq-parse f total end u st (omega (arith, Seq-length q)),
)
Seq-parse (suc f) total end (seq_while {k} {r = r} t b q says u) st h = rw (
  t,
  b,
  Seq-parse f total (some endwhile) q (at_endwhile k r says) (omega arith),
  consume_end_lem k r endwhile says,
  Seq-parse f total end u st (omega (arith, Seq-length q)),
)

pub Seq-compile_enabled :
    {es : List Entry} {bs : Blocks} → Seq es bs [] → compile_enabled es ≡ ok bs
unfolding compile_enabled
Seq-compile_enabled {es} s =
    rw (Seq-parse (suc (length es)) (length es) none s refl (omega arith)) refl
