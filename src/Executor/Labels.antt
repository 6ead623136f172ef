-- ===== src/Executor/Labels.antt =====
-- The labels and previews of executor.rs that name a step in a failure.
use qdrust.Base.{
  ℕ, ◌+◌, Text, codes, trim, is_empty, bounded, join, split_whitespace, Option, none, some, ◌++◌,
  [], if◌then◌else◌,
}
use qdrust.Base.Decimal.{to_string}
use qdrust.Har.{Block, request, for_block, while_block, if_block}

unfoldable pub bounded_label : Text → Text
bounded_label value = bounded 120 (trim value)

unfoldable pub request_label : Text → Text → Text → Text
unfolding bounded_label
request_label name method url =
    let shown = trim name in
    if is_empty shown
    then method ++ codes " " ++ bounded_label url
    else shown ++ codes " " ++ method ++ codes " " ++ bounded_label url

block_detail : Block → Text
unfolding request_label
block_detail (request e) = request_label [] e.request.method e.request.url
block_detail (for_block target source body) =
    codes "for " ++ target ++ codes " in " ++ bounded_label source
block_detail (while_block condition body) = codes "while " ++ bounded_label condition
block_detail (if_block condition ts fs) = codes "if " ++ bounded_label condition

unfoldable pub step_text : ℕ → Text → Text
step_text index detail = codes "step " ++ to_string (index + 1) ++ codes " (" ++ detail ++ codes ")"

unfoldable pub block_label : ℕ → Block → Text
unfolding block_detail step_text
block_label index b = step_text index (block_detail b)

unfoldable pub bounded_preview : Text → Text
bounded_preview text = bounded 300 (join (codes " ") (split_whitespace text))

unfoldable pub request_digest : Text → Option Text → Text
unfolding bounded_preview
request_digest method none = bounded_preview method
request_digest method (some body) = bounded_preview (method ++ codes " body: " ++ body)
