-- ===== src/Har/Grammar.antt =====
-- The grammar of the control tags of qd_har.rs, which `parse_blocks` decides.
pub mod Sound
pub mod Fuel
pub mod Requests
pub mod Complete
use qdrust.Base.{
  ℕ, suc, ◌≤◌, Text, codes, trim, is_blank, split_once, Bool, true, false, Option, none, some, List,
  [], ◌∷◌, ◌++◌, length, keep_if, ◌≡◌, refl, arith,
}
use qdrust.Har.{Entry, Block, Blocks, request, for_block, while_block, if_block, no_blocks, block}
use qdrust.Har.Control.{Tag, plain, if_tag, for_tag, while_tag, tag, control_statement}
use qdrust.Har.Compile.{endif, endfor, endwhile, else_statement}

-- The entry is the control tag of this statement.
abbrev pub Says : Entry → Text → Type 0
Says e s = control_statement e.request.url ≡ some s

-- `Seq es bs rest`: the entries `es` begin with the blocks `bs`, behind which `rest` is left.
pub data Seq : List Entry → Blocks → List Entry → Type 0 where
  seq_end : {es : List Entry} → Seq es no_blocks es
  seq_request :
      {e : Entry} {es rest : List Entry} {bs : Blocks}
      → tag e ≡ plain
      → Seq es bs rest
      → Seq (e ∷ es) (block (request e) bs) rest
  seq_if :
      {e k : Entry} {es r rest : List Entry} {c : Text} {ts bs : Blocks}
      → tag e ≡ if_tag c
      → is_blank c ≡ false
      → Seq es ts (k ∷ r)
      → Says k endif
      → Seq r bs rest
      → Seq (e ∷ es) (block (if_block (trim c) ts no_blocks) bs) rest
  seq_if_else :
      {e k l : Entry} {es r q rest : List Entry} {c : Text} {ts fs bs : Blocks}
      → tag e ≡ if_tag c
      → is_blank c ≡ false
      → Seq es ts (k ∷ r)
      → Says k else_statement
      → Seq r fs (l ∷ q)
      → Says l endif
      → Seq q bs rest
      → Seq (e ∷ es) (block (if_block (trim c) ts fs) bs) rest
  seq_for :
      {e k : Entry} {es r rest : List Entry} {x t s : Text} {body bs : Blocks}
      → tag e ≡ for_tag x
      → split_once (codes " in ") x ≡ some (t, s)
      → is_blank t ≡ false
      → is_blank s ≡ false
      → Seq es body (k ∷ r)
      → Says k endfor
      → Seq r bs rest
      → Seq (e ∷ es) (block (for_block (trim t) (trim s) body) bs) rest
  seq_while :
      {e k : Entry} {es r rest : List Entry} {c : Text} {body bs : Blocks}
      → tag e ≡ while_tag c
      → is_blank c ≡ false
      → Seq es body (k ∷ r)
      → Says k endwhile
      → Seq r bs rest
      → Seq (e ∷ es) (block (while_block (trim c) body) bs) rest

pub Seq-length : {es rest : List Entry} {bs : Blocks} → Seq es bs rest → length rest ≤ length es
Seq-length seq_end = omega arith
Seq-length (seq_request h s) = omega (arith, Seq-length s)
Seq-length (seq_if h b s k t) = omega (arith, Seq-length s, Seq-length t)
Seq-length (seq_if_else h b s k t l u) = omega (arith, Seq-length s, Seq-length t, Seq-length u)
Seq-length (seq_for h sp bt bs s k t) = omega (arith, Seq-length s, Seq-length t)
Seq-length (seq_while h b s k t) = omega (arith, Seq-length s, Seq-length t)
