-- ===== src/Executor/Rules.antt =====
-- `rule_source` and `check_rules` of executor.rs.
pub mod Laws
use qdrust.Base.{
  ℕ, Text, codes, text_eq, strip_prefix, eq_ignore_ascii_case, contains, to_ascii_lowercase, join,
  Bool, true, false, Option, none, some, List, [], ◌∷◌, ◌++◌, map, Result, ok, err, map_err, ◌>>=◌,
  if◌then◌else◌,
}
use qdrust.Base.Dict.{Dict}
use qdrust.Base.Decimal.{to_string}
use qdrust.Json.{Value}
use qdrust.Har.{Rule}
use qdrust.Executor.{
  Outside, ExecError, message, cannot_render, failed_assertion, no_success_assertion,
}

-- The first header of this name, whatever its case.
unfoldable pub header_value : List (Text × Text) → Text → Option Text
header_value [] name = none
header_value ((n, v) ∷ hs) name =
    if eq_ignore_ascii_case n name then some v else header_value hs name

header_line : Text × Text → Text
header_line (name, value) = name ++ codes ": " ++ value

or_empty : Option Text → Text
or_empty none = []
or_empty (some t) = t

named_header : Option Text → List (Text × Text) → Text
unfolding header_value or_empty
named_header none headers = []
named_header (some name) headers = or_empty (header_value headers name)

unfoldable pub rule_source : Text → ℕ → List (Text × Text) → Text → Text
unfolding header_line named_header
rule_source source status headers content =
    if text_eq source (codes "content")
    then content
    else if text_eq source (codes "status")
    then to_string status
    else if text_eq source (codes "header")
    then join (0x0a ∷ []) (map header_line headers)
    else named_header (strip_prefix (codes "header-") source) headers

is_image : Option Text → Bool
is_image none = false
is_image (some v) = contains (codes "image") (to_ascii_lowercase v)

unfoldable pub is_image_response : List (Text × Text) → Bool
unfolding is_image header_value
is_image_response headers = is_image (header_value headers (codes "content-type"))

module _ {W : Type 0} (o : Outside W) where
  unfoldable pub render_value : Text → Dict Value → Result ExecError Text
  render_value value variables = map_err cannot_render (o.render value variables)

  module _ (status : ℕ) (headers : List (Text × Text)) (content : Text)
      (variables : Dict Value) where
    -- The rendered pattern of a rule, and whether it matches.
    unfoldable pub try_rule : Rule → Result ExecError (Text × Bool)
    unfolding render_value
    try_rule rule = do
      pattern ← render_value rule.re variables
      hit ← map_err message (o.is_match pattern (rule_source rule.source status headers content))
      ok (pattern, hit)

    unfoldable pub check_each : Bool → List Rule → Result ExecError (Unit {0})
    check_each success_rules [] = if success_rules then err no_success_assertion else ok tt
    check_each success_rules (rule ∷ rules) =
        let rest = check_each success_rules rules in
        do
          tried ← try_rule rule
          if tried.1
              then (if success_rules then ok tt else err (failed_assertion tried.0))
              else rest

    unfoldable pub check_rules : Bool → List Rule → Result ExecError (Unit {0})
    unfolding check_each
    check_rules success_rules [] = ok tt
    check_rules success_rules (rule ∷ rules) = check_each success_rules (rule ∷ rules)
