-- ===== src/Har/Grammar/Sound.antt =====
-- What `parse_blocks` of qd_har.rs reads, the grammar derives; and its fuel suffices.
use qdrust.Base.{
  ℕ, zero, suc, Text, codes, text_eq→eq, Bool, true, false, not, Option, none, some, List, [], ◌∷◌,
  length, ok, err, ensure, ensure-eq-ok, >>=-elim, ◌≡◌, refl, sym, ap, ◌∙◌, subst, ok-injective,
  inl, inr, is_blank, trim, split_once, Bool-cases, Option-cases,
}
use qdrust.Har.{Entry, Block, Blocks, no_blocks, block, if_block, for_block, while_block, request}
use qdrust.Har.Control.{
  Tag, plain, closing, if_tag, for_tag, while_tag, tag, current_statement, control_statement,
}
use qdrust.Har.Compile.{
  if_condition_empty, while_condition_empty, for_target_empty, for_source_empty, for_parts, Parser,
  Parsed, parse_blocks, parse_round, parse_tag, parse_if, parse_else, parse_while, prepend,
  consume_end, finish, stops_at, endif, endfor, endwhile, else_statement, compile_enabled,
  statement_is, whole, drop_first,
}
use qdrust.Har.Grammar.{Says, Seq, seq_end, seq_request, seq_if, seq_if_else, seq_for, seq_while}

-- What a call that succeeds has read.
abbrev pub Reads : Option Text → List Entry → Blocks × List Entry → Type 0
Reads end es (bs, rest) = Seq es bs rest × (end ≡ none → rest ≡ [])

statement_is-Says :
    (rest : List Entry) (t : Text)
    → statement_is (current_statement rest) t ≡ true
    → (k : Entry) × (rest ≡ k ∷ drop_first rest) × Says k t
unfolding statement_is current_statement drop_first
statement_is-Says [] t h = cc
statement_is-Says (k ∷ r) t h = elim (Option-cases (control_statement k.request.url)) [
  | inl e ↦ cc (rw (e, statement_is) at h)
  | inr (s, e) ↦ (k, refl, e ∙ ap some (text_eq→eq s t (rw (e, statement_is) at h)))
]

pub consume_end-Says :
    (rest r : List Entry) (t : Text)
    → consume_end rest t ≡ ok r
    → (k : Entry) × (rest ≡ k ∷ r) × Says k t
unfolding consume_end
consume_end-Says rest r t h = elim (Bool-cases (statement_is (current_statement rest) t)) [
  | inl e ↦
      let (k, split, says) = statement_is-Says rest t e in
      (k, split ∙ ap (λ q. k ∷ q) (ok-injective (rw e at h)), says)
  | inr e ↦ cc (rw e at h)
]

prepend-eq-ok :
    (b : Block) (m : Parsed) {bs : Blocks} {rest : List Entry}
    → prepend b m ≡ ok (bs, rest)
    → (cs : Blocks) × (m ≡ ok (cs, rest)) × (bs ≡ block b cs)
unfolding prepend
prepend-eq-ok b (ok (cs, r)) h = (
  cs,
  ap (λ q. ok (cs, q)) (ap (λ (x : Blocks × List Entry). x.1) (ok-injective h)),
  ap (λ (x : Blocks × List Entry). x.0) (sym (ok-injective h)),
)
prepend-eq-ok b (err e) h = cc

finish-Reads :
    (end : Option Text) (rest : List Entry) (x : Blocks × List Entry)
    → (end ≡ none → rest ≡ [])
    → finish end rest ≡ ok x
    → Reads end rest x
unfolding finish
finish-Reads none rest (bs, q) n h = subst (Reads none rest) (ok-injective h) (seq_end, n)
finish-Reads (some t) rest (bs, q) n h =
    elim (Bool-cases (stops_at (some t) (current_statement rest))) [
      | inl e ↦ subst (Reads (some t) rest) (ok-injective (rw e at h)) (seq_end, λ c. cc)
      | inr e ↦ cc (rw e at h)
    ]

not-eq-true : (b : Bool) → not b ≡ true → b ≡ false
not-eq-true true h = cc
not-eq-true false h = refl

-- Whether there is an else branch.
pub data Else (rest : List Entry) (x : Blocks × List Entry) : Type 0 where
  without : x.0 ≡ no_blocks → x.1 ≡ rest → Else rest x
  with_branch :
      (k : Entry) (r : List Entry)
      → rest ≡ k ∷ r
      → Says k else_statement
      → Seq r x.0 x.1
      → Else rest x

abbrev pub Closed : List Entry → List Entry → Text → Type 0
Closed rest r t = (k : Entry) × (rest ≡ k ∷ r) × Says k t

if_branches :
    {e : Entry} {es rest : List Entry} {c : Text} (ts fs : Blocks × List Entry)
    → tag e ≡ if_tag c
    → is_blank c ≡ false
    → Seq es ts.0 ts.1
    → Else ts.1 fs
    → Closed fs.1 rest endif
    → (bs : Blocks) (q : List Entry) → Seq rest bs q
    → Seq (e ∷ es) (block (if_block (trim c) ts.0 fs.0) bs) q
if_branches {e} {es} {c = c} ts fs t b s (without none_read same) (k, split, says) bs q r =
    subst (λ y. Seq (e ∷ es) (block (if_block (trim c) ts.0 y) bs) q) (sym none_read)
      (seq_if t b (subst (Seq es ts.0) (sym same ∙ split) s) says r)
if_branches {es} ts fs t b s (with_branch l m cut has_else s') (k, split, says) bs q r =
    seq_if_else t b (subst (Seq es ts.0) cut s) has_else (subst (Seq m fs.0) split s') says r

-- One round of the loop, over a recursive call that reads what the grammar derives.
module _ (p : Parser)
    (sound : (es : List Entry) (end : Option Text) (x : Blocks × List Entry)
      → p es end ≡ ok x
      → Reads end es x) where
  -- The blocks behind the one that was read.
  followed :
      (b : Block) (e : Entry) (es rest : List Entry) (end : Option Text) (x : Blocks × List Entry)
      → ((bs : Blocks) (q : List Entry) → Seq rest bs q → Seq (e ∷ es) (block b bs) q)
      → prepend b (p rest end) ≡ ok x
      → Reads end (e ∷ es) x
  followed b e es rest end (bs, q) build h =
      let (cs, read, split) = prepend-eq-ok b (p rest end) h in
      let tail : Reads end rest (cs, q) = sound rest end (cs, q) read in
      (subst (λ y. Seq (e ∷ es) y q) (sym split) (build cs q tail.0), tail.1)

  pub parse_else-Else :
      (rest : List Entry) (x : Blocks × List Entry) → parse_else p rest ≡ ok x → Else rest x
  unfolding parse_else
  parse_else-Else rest x h =
      elim (Bool-cases (statement_is (current_statement rest) else_statement)) [
        | inl e ↦
            let (k, split, says) = statement_is-Says rest else_statement e in
            with_branch k (drop_first rest) split says
              (sound (drop_first rest) (some endif) x (rw e at h)).0
        | inr e ↦
            let same = ok-injective (rw e at h) in
            without (ap (λ (y : Blocks × List Entry). y.0) (sym same))
              (ap (λ (y : Blocks × List Entry). y.1) (sym same))
      ]

  parse_if-Reads :
      (e : Entry) (es : List Entry) (end : Option Text) (c : Text) (x : Blocks × List Entry)
      → tag e ≡ if_tag c
      → parse_if p c es end ≡ ok x
      → Reads end (e ∷ es) x
  unfolding parse_if
  parse_if-Reads e es end c x t h =
      >>=-elim (ensure (not (is_blank c)) if_condition_empty) _ h λ u filled h1.
        >>=-elim (p es (some endif)) _ h1 λ ts then_read h2.
          >>=-elim (parse_else p ts.1) _ h2 λ fs else_read h3.
            >>=-elim (consume_end fs.1 endif) _ h3 λ rest closed h4.
              followed (if_block (trim c) ts.0 fs.0) e es rest end x
                (if_branches ts fs t
                  (not-eq-true (is_blank c) (ensure-eq-ok _ if_condition_empty filled))
                  (sound es (some endif) ts then_read).0 (parse_else-Else ts.1 fs else_read)
                  (consume_end-Says fs.1 rest endif closed))
                h4

  parse_while-Reads :
      (e : Entry) (es : List Entry) (end : Option Text) (c : Text) (x : Blocks × List Entry)
      → tag e ≡ while_tag c
      → parse_while p c es end ≡ ok x
      → Reads end (e ∷ es) x
  unfolding parse_while
  parse_while-Reads e es end c x t h =
      >>=-elim (ensure (not (is_blank c)) while_condition_empty) _ h λ u filled h1.
        >>=-elim (p es (some endwhile)) _ h1 λ body body_read h2.
          >>=-elim (consume_end body.1 endwhile) _ h2 λ rest closed h3.
            let (k, split, says) = consume_end-Says body.1 rest endwhile closed in
            followed (while_block (trim c) body.0) e es rest end x
              (λ bs q.
                seq_while t (not-eq-true (is_blank c) (ensure-eq-ok _ while_condition_empty filled))
                  (subst (Seq es body.0) split (sound es (some endwhile) body body_read).0) says)
              h3

  for_parts-Reads :
      (e : Entry) (es : List Entry) (end : Option Text) (c : Text) (o : Option (Text × Text))
      (x : Blocks × List Entry)
      → tag e ≡ for_tag c
      → split_once (codes " in ") c ≡ o
      → for_parts p o es end ≡ ok x
      → Reads end (e ∷ es) x
  unfolding for_parts
  for_parts-Reads e es end c none x t parts h = cc
  for_parts-Reads e es end c (some (target, source)) x t parts h =
      >>=-elim (ensure (not (is_blank target)) for_target_empty) _ h λ u filled h1.
        >>=-elim (ensure (not (is_blank source)) for_source_empty) _ h1 λ v filled' h2.
          >>=-elim (p es (some endfor)) _ h2 λ body body_read h3.
            >>=-elim (consume_end body.1 endfor) _ h3 λ rest closed h4.
              let (k, split, says) = consume_end-Says body.1 rest endfor closed in
              followed (for_block (trim target) (trim source) body.0) e es rest end x
                (λ bs q.
                  seq_for t parts
                    (not-eq-true (is_blank target) (ensure-eq-ok _ for_target_empty filled))
                    (not-eq-true (is_blank source) (ensure-eq-ok _ for_source_empty filled'))
                    (subst (Seq es body.0) split (sound es (some endfor) body body_read).0) says)
                h4

  parse_tag-Reads :
      (a : Tag) (total : ℕ) (e : Entry) (es : List Entry) (end : Option Text)
      (x : Blocks × List Entry)
      → tag e ≡ a
      → parse_tag p a total e es end ≡ ok x
      → Reads end (e ∷ es) x
  unfolding parse_tag
  parse_tag-Reads plain total e es end x t h =
      followed (request e) e es es end x (λ bs q. seq_request t) h
  parse_tag-Reads (closing s) total e es none x t h = cc
  parse_tag-Reads (closing s) total e es (some y) x t h =
      finish-Reads (some y) (e ∷ es) x (λ c. cc) h
  parse_tag-Reads (if_tag c) total e es end x t h = parse_if-Reads e es end c x t h
  parse_tag-Reads (for_tag c) total e es end x t h = for_parts-Reads e es end c _ x t refl h
  parse_tag-Reads (while_tag c) total e es end x t h = parse_while-Reads e es end c x t h

  parse_round-Reads :
      (total : ℕ) (es : List Entry) (end : Option Text) (x : Blocks × List Entry)
      → parse_round p total es end ≡ ok x
      → Reads end es x
  unfolding parse_round
  parse_round-Reads total [] end x h = finish-Reads end [] x (λ c. refl) h
  parse_round-Reads total (e ∷ es) end x h = parse_tag-Reads (tag e) total e es end x refl h

pub parse_blocks-Reads :
    (f total : ℕ) (es : List Entry) (end : Option Text) (x : Blocks × List Entry)
    → parse_blocks f total es end ≡ ok x
    → Reads end es x
unfolding parse_blocks
parse_blocks-Reads zero total es end x h = cc
parse_blocks-Reads (suc f) total es end x h =
    parse_round-Reads (parse_blocks f total) (parse_blocks-Reads f total) total es end x h

whole-eq-ok : (x : Blocks × List Entry) {bs : Blocks} → x.1 ≡ [] → whole x ≡ ok bs → x ≡ (bs, [])
unfolding whole
whole-eq-ok (cs, []) e h = ap (λ y. (y, [])) (ok-injective h)
whole-eq-ok (cs, k ∷ r) e h = cc

pub compile_enabled-Seq :
    (es : List Entry) {bs : Blocks} → compile_enabled es ≡ ok bs → Seq es bs []
unfolding compile_enabled
compile_enabled-Seq es {bs} h =
    >>=-elim (parse_blocks (suc (length es)) (length es) es none) whole h λ x read done.
      let reads = parse_blocks-Reads (suc (length es)) (length es) es none x read in
      subst (λ (y : Blocks × List Entry). Seq es y.0 y.1) (whole-eq-ok x (reads.1 refl) done)
        reads.0
