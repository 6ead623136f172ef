-- ===== src/Tests/Catalogues.antt =====
-- A source that tells the time, and cannot be reached at 30.
use qdrust.Base.{
  ℕ, ◌==◌, Text, codes, true, [], ◌∷◌, Result, ok, err, if◌then◌else◌, ◌≡◌, ◌⊎◌, refl,
}
use qdrust.Library.Served.{Read, read, reads, Fresh, Copied, read-reads}

abbrev source : ℕ → Text → Result (Unit {0}) ℕ
source t url = if t == 30 then err tt else ok t

abbrev asks : ℕ → ℕ → Read
asks max_age now = record { url = codes "a"; max_age = max_age; now = now }

-- The copy of the time 10 is too old for the read, but the source fails.
stale : (read source (asks 15 30) (reads source (asks 60 10 ∷ []) [])).0 ≡ ok (10, true)
unfolding read reads
stale = refl

read-reads_example : Fresh source (asks 15 30) 10 true ⊎ Copied source (asks 15 30) 10 true
read-reads_example = read-reads source (asks 60 10 ∷ []) (asks 15 30) 10 true stale
