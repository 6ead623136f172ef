-- ===== src/Har/Validate.antt =====
-- `QdHar::finish_parse` and the `validate` methods of qd_har.rs.
use qdrust.Base.{
  ℕ, suc, ◌+◌, Text, codes, text_eq, is_blank, is_empty, not, List, [], ◌∷◌, ◌++◌, Result, ok,
  map_err, ensure, ◌>>◌, if◌then◌else◌,
}
use qdrust.Har.{Entry, Rule, ExtractRule}

pub data EntryFault : Type 0 where
  method_empty : EntryFault
  url_empty : EntryFault
  rule_source_empty : EntryFault

pub data HarError : Type 0 where
  unsupported_version : HarError
  no_entries : HarError
  invalid_entry : ℕ → EntryFault → HarError

pub record Document : Type 0 where
  pub version : Text
  pub entries : List Entry

unfoldable pub validate_rule : Rule → Result EntryFault (Unit {0})
validate_rule r = ensure (not (is_blank r.source)) rule_source_empty

unfoldable pub validate_rules : List Rule → Result EntryFault (Unit {0})
unfolding validate_rule
validate_rules [] = ok tt
validate_rules (r ∷ rs) = do validate_rule r; validate_rules rs

unfoldable pub validate_extracts : List ExtractRule → Result EntryFault (Unit {0})
unfolding validate_rule
validate_extracts [] = ok tt
validate_extracts (x ∷ xs) = do validate_rule x.rule; validate_extracts xs

unfoldable pub validate_entry : Entry → Result EntryFault (Unit {0})
unfolding validate_rules validate_extracts
validate_entry e = do
  ensure (not (is_blank e.request.method)) method_empty
  ensure (not (is_blank e.request.url)) url_empty
  validate_rules (e.success_asserts ++ e.failed_asserts)
  validate_extracts e.extract_variables

-- The loop over the entries: the index counts those that are not checked too.
unfoldable pub validate_entries : ℕ → List Entry → Result HarError (Unit {0})
unfolding validate_entry
validate_entries index [] = ok tt
validate_entries index (e ∷ es) =
    let rest = validate_entries (suc index) es in
    if e.checked then (map_err (invalid_entry (index + 1)) (validate_entry e) >> rest) else rest

unfoldable pub finish_parse : Document → Result HarError Document
unfolding validate_entries
finish_parse d = do
  ensure (text_eq d.version (codes "1.2")) unsupported_version
  ensure (not (is_empty d.entries)) no_entries
  validate_entries 0 d.entries
  ok d
