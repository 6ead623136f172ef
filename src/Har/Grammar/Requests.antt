-- ===== src/Har/Grammar/Requests.antt =====
-- The entries that a program of qd_har.rs sends.
use qdrust.Base.{
  Text, Bool, true, false, List, [], ◌∷◌, ◌++◌, append_assoc, append-nil, keep_if, ◌≡◌, refl, sym,
  ap, ◌∙◌, some,
}
use qdrust.Har.{Entry, Block, Blocks, request, for_block, while_block, if_block, no_blocks, block}
use qdrust.Har.Control.{Tag, plain, closing, classify, tag}
use qdrust.Har.Grammar.{Says, Seq, seq_end, seq_request, seq_if, seq_if_else, seq_for, seq_while}

-- The request entries of a program, in the order of its text.
unfoldable mutual
  pub block_requests : Block → List Entry
  block_requests (request e) = e ∷ []
  block_requests (for_block target source body) = requests body
  block_requests (while_block condition body) = requests body
  block_requests (if_block condition ts fs) = requests ts ++ requests fs

  pub requests : Blocks → List Entry
  requests no_blocks = []
  requests (block b bs) = block_requests b ++ requests bs

-- An entry that is no control tag.
unfoldable pub is_plain : Tag → Bool
is_plain plain = true
is_plain _ = false

unfoldable pub is_request : Entry → Bool
unfolding is_plain
is_request e = is_plain (tag e)

tag-Says : (k : Entry) {s : Text} → Says k s → tag k ≡ classify (some s)
unfolding tag
tag-Says k h = rw h

skipped :
    (k : Entry) (r : List Entry) {a : Tag}
    → tag k ≡ a
    → is_plain a ≡ false
    → keep_if is_request (k ∷ r) ≡ keep_if is_request r
unfolding is_request
skipped k r t h = rw (t, h)

sent :
    (k : Entry) (r : List Entry)
    → tag k ≡ plain
    → keep_if is_request (k ∷ r) ≡ k ∷ keep_if is_request r
unfolding is_request
sent k r t = rw t

closes :
    (k : Entry) (r : List Entry) {t s : Text}
    → Says k t
    → classify (some t) ≡ closing s
    → keep_if is_request (k ∷ r) ≡ keep_if is_request r
unfolding is_plain
closes k r says c = skipped k r (tag-Says k says ∙ c) refl

-- What the entries of one part and those behind it send.
follow :
    (xs ys zs : List Entry) {all rest : List Entry}
    → all ≡ xs ++ rest
    → rest ≡ ys ++ zs
    → all ≡ (xs ++ ys) ++ zs
follow xs ys zs p q = p ∙ ap (λ r. xs ++ r) q ∙ sym (append_assoc xs ys zs)

pub Seq-requests :
    {es rest : List Entry} {bs : Blocks}
    → Seq es bs rest
    → keep_if is_request es ≡ requests bs ++ keep_if is_request rest
unfolding requests is_plain classify
Seq-requests seq_end = refl
Seq-requests (seq_request {e} {es} t s) = sent e es t ∙ ap (λ q. e ∷ q) (Seq-requests s)
Seq-requests (seq_if {e} {k} {es} {r} {rest} {ts = ts} {bs = bs} t b s says u) =
    skipped e es t refl
    ∙ follow (requests ts ++ []) (requests bs) (keep_if is_request rest)
        (rw append-nil (Seq-requests s ∙ ap (λ q. requests ts ++ q) (closes k r says refl)))
        (Seq-requests u)
Seq-requests (seq_if_else {e} {k} {l} {es} {r} {q} {rest} {ts = ts} {fs} {bs} t b s says u ends v) =
    skipped e es t refl
    ∙ follow (requests ts ++ requests fs) (requests bs) (keep_if is_request rest)
        (follow (requests ts) (requests fs) (keep_if is_request (q))
          (Seq-requests s ∙ ap (λ q. requests ts ++ q) (closes k r says refl))
          (Seq-requests u ∙ ap (λ q. requests fs ++ q) (closes l q ends refl)))
        (Seq-requests v)
Seq-requests (seq_for {e} {k} {es} {r} {rest} {body = ts} {bs} t sp bt bl s says u) =
    skipped e es t refl
    ∙ follow (requests ts) (requests bs) (keep_if is_request rest)
        (Seq-requests s ∙ ap (λ q. requests ts ++ q) (closes k r says refl)) (Seq-requests u)
Seq-requests (seq_while {e} {k} {es} {r} {rest} {body = ts} {bs} t b s says u) =
    skipped e es t refl
    ∙ follow (requests ts) (requests bs) (keep_if is_request rest)
        (Seq-requests s ∙ ap (λ q. requests ts ++ q) (closes k r says refl)) (Seq-requests u)
