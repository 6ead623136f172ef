-- ===== src/Har/Control.antt =====
-- The control tags of qd_har.rs: entries whose URL is `{% … %}`.
use qdrust.Base.{
  Text, codes, text_eq, trim, strip_prefix, strip_suffix, starts_with, ◌||◌, Option, none, some,
  List, [], ◌∷◌, if◌then◌else◌,
}
use qdrust.Har.{Entry}

unfoldable pub control_statement : Text → Option Text
unfolding strip_prefix strip_suffix trim
control_statement value = elim (strip_prefix (codes "{%") (trim value)) [
  | none ↦ none
  | some inner ↦ elim (strip_suffix (codes "%}") inner) [ none ↦ none | some s ↦ some (trim s) ]
]

-- What the loop of `parse_blocks` makes of an entry, in the order of its tests.
pub data Tag : Type 0 where
  plain : Tag
  closing : Text → Tag
  if_tag : Text → Tag
  for_tag : Text → Tag
  while_tag : Text → Tag

classify_while : Text → Tag
classify_while s = elim (strip_prefix (codes "while ") s) [ none ↦ plain | some c ↦ while_tag c ]

classify_for : Text → Tag
unfolding classify_while
classify_for s = elim (strip_prefix (codes "for ") s) [
  | none ↦ classify_while s
  | some e ↦ for_tag e
]

classify_if : Text → Tag
unfolding classify_for
classify_if s = elim (strip_prefix (codes "if ") s) [ none ↦ classify_for s | some c ↦ if_tag c ]

unfoldable pub classify : Option Text → Tag
unfolding classify_if strip_prefix starts_with
classify none = plain
classify (some s) =
    if text_eq s (codes "else") || starts_with (codes "end") s then closing s else classify_if s

unfoldable pub tag : Entry → Tag
unfolding control_statement classify
tag e = classify (control_statement e.request.url)

unfoldable pub current_statement : List Entry → Option Text
unfolding control_statement
current_statement [] = none
current_statement (e ∷ es) = control_statement e.request.url
