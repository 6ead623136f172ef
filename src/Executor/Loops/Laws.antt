-- ===== src/Executor/Loops/Laws.antt =====
-- The loops of executor.rs.
use qdrust.Base.{ℕ, ◌+◌, ◌-◌, ◌<◌, codes, some, ◌≡◌, ap, ◌∙◌, arith}
use qdrust.Base.Dict.{Dict, insert, lookup-insert}
use qdrust.Base.Decimal.{parse_usize-to_string, usize_limit}
use qdrust.Json.{Value, as_str}
use qdrust.Executor.Loops.{loop_depth, enter_loop, leave_loop, or_number, numeral}

-- Reading a depth that was just written.
loop_depth-insert :
    (n : ℕ) (v : Value) (variables : Dict Value)
    → n < usize_limit
    → loop_depth
        (insert (codes "loop_depth0") v (insert (codes "loop_depth") (numeral n) variables))
      ≡ some n
unfolding loop_depth numeral as_str
loop_depth-insert n v variables h = simp lookup-insert (parse_usize-to_string n h)

loop_depth-enter :
    (variables : Dict Value)
    → or_number (loop_depth variables) 0 + 1 < usize_limit
    → loop_depth (enter_loop variables) ≡ some (or_number (loop_depth variables) 0 + 1)
unfolding enter_loop
loop_depth-enter variables h = loop_depth-insert _ _ variables h

loop_depth-leave :
    (variables : Dict Value) (n : ℕ)
    → loop_depth variables ≡ some (n + 1)
    → n + 1 < usize_limit
    → loop_depth (leave_loop variables) ≡ some n
unfolding leave_loop or_number
loop_depth-leave variables n e h =
    let depth : or_number (loop_depth variables) 1 - 1 ≡ n = rw (e, or_number) (omega arith) in
    loop_depth-insert _ _ variables (rw depth (omega arith)) ∙ ap some depth

-- Entering a loop counts one level more than the variables show (none, where they show no
-- number), as long as that fits a usize, and leaving it at once brings the level back.
pub loop_depth-enter_leave :
    (variables : Dict Value)
    → or_number (loop_depth variables) 0 + 1 < usize_limit
    → (loop_depth (enter_loop variables) ≡ some (or_number (loop_depth variables) 0 + 1))
      × (loop_depth (leave_loop (enter_loop variables)) ≡ some (or_number (loop_depth variables) 0))
loop_depth-enter_leave variables h = (
  loop_depth-enter variables h,
  loop_depth-leave (enter_loop variables) _ (loop_depth-enter variables h) h,
)
