-- ===== src/Tests/Masks.antt =====
-- Texts with credentials, masked.
use qdrust.Base.{All, codes, split_by, starts_with, ◌≡◌, refl}
use qdrust.Redact.{redact, redact_pairs}
use qdrust.Redact.Queries.{is_amp, IsMasked, redact_pairs-IsMasked}

whole_url : redact (codes "://u:p@h/?key=1&b=2#f") ≡ codes "://***@h/?key=***&b=2#f"
unfolding redact starts_with
whole_url = refl

bearer : redact (codes "Bearer abc, x") ≡ codes "Bearer ***, x"
unfolding redact starts_with
bearer = refl

-- A second pass masks what the first one left.
once : redact (codes "Bearer a://b)c://u@h") ≡ codes "Bearer ***)c://u@h"
unfolding redact starts_with
once = refl

twice : redact (codes "Bearer ***)c://u@h") ≡ codes "Bearer ***)c://***@h"
unfolding redact starts_with
twice = refl

-- An empty query loses its mark.
bare_mark : redact (codes "http://h/?") ≡ codes "http://h/"
unfolding redact starts_with
bare_mark = refl

redact_pairs-IsMasked_example :
    All IsMasked (split_by is_amp (redact_pairs (codes "a=1&my_token=x=y&b")))
    × (redact_pairs (redact_pairs (codes "a=1&my_token=x=y&b"))
        ≡ redact_pairs (codes "a=1&my_token=x=y&b"))
redact_pairs-IsMasked_example = redact_pairs-IsMasked (codes "a=1&my_token=x=y&b")
