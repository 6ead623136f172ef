-- ===== src/Tests/Loops.antt =====
-- A loop and the assertions of a response.
use qdrust.Base.{ℕ, ◌+◌, ◌<◌, codes, Bool, List, [], ◌∷◌, ok, ◌≡◌, ◌↔◌, arith}
use qdrust.Base.Dict.{lookup}
use qdrust.Base.Decimal.{usize_limit}
use qdrust.Json.{no_fields}
use qdrust.Har.{Rule}
use qdrust.Executor.Exec.{Exec}
use qdrust.Executor.Loops.{loop_depth, or_number}
use qdrust.Executor.Loops.While.{Loops, while-iff-Loops}
use qdrust.Executor.Blocks.{while_rounds, test_condition, execute_blocks}
use qdrust.Tests.Outsides.{simple, idle}
use qdrust.Tests.Programs.{compiled}

abbrev test : Exec (Unit {0}) Bool
test = test_condition simple 1000 (codes "again")

abbrev body : Exec (Unit {0}) (Unit {0})
body = execute_blocks simple 1000 0 compiled

while-iff-Loops_example :
    (while_rounds test body 3 3 0 idle ≡ (ok tt, idle))
    ↔ ((n : ℕ) × (n < 3) × Loops test body 3 n 0 idle idle)
while-iff-Loops_example = while-iff-Loops test body 3 idle idle (omega arith)

shallow : or_number (loop_depth []) 0 + 1 < usize_limit
unfolding or_number loop_depth lookup
shallow = omega arith

abbrev rules : List Rule
rules =
    record { re = codes "200"; source = codes "status"; extensions = no_fields }
    ∷ record { re = codes "welcome"; source = codes "content"; extensions = no_fields }
    ∷ []
