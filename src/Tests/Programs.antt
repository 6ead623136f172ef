-- ===== src/Tests/Programs.antt =====
-- Compiling and running the entries of the test document.
use qdrust.Base.{
  is_blank, ℕ, zero, suc, ◌+◌, ◌≤◌, ◌<◌, min, codes, Text, Bool, true, false, not, none, some, List,
  [], ◌∷◌, ◌++◌, length, Result, ok, err, keep_if, ◌≡◌, ◌≢◌, ◌↔◌, refl, arith, ◌⊎◌, All,
}
use qdrust.Har.{Blocks, request, if_block, no_blocks, block}
use qdrust.Har.Control.{tag, current_statement}
use qdrust.Har.Compile.{compile, enabled_entries, out_of_fuel}
use qdrust.Har.Grammar.{Seq}
use qdrust.Har.Grammar.Requests.{requests, is_request}
use qdrust.Har.Meaning.{compile-iff-Seq, requests-compile, compile-ne-out_of_fuel}
use qdrust.Tests.{get, entries}
use qdrust.Tests.Outsides.{simple, limits, idle}
use qdrust.Executor.{Outside, Limits, Machine, Context, StepResult, Event, ExecError}
use qdrust.Executor.Progress.{Paired}
use qdrust.Executor.Promises.{length-execute, events-execute}
use qdrust.Executor.Blocks.{execute}

abbrev pub compiled : Blocks
compiled =
    block
      (if_block (codes "ready") (block (request (get "https://host/a")) no_blocks)
        (block (request (get "https://host/b")) no_blocks))
      (block (request (get "https://host/c")) no_blocks)

compiles : compile entries ≡ ok compiled
unfolding compile tag is_blank current_statement
compiles = refl

compile-iff-Seq_example :
    (compile entries ≡ ok compiled) ↔ Seq (enabled_entries entries) compiled []
compile-iff-Seq_example = compile-iff-Seq entries compiled

requests-compile_example : requests compiled ≡ keep_if is_request (enabled_entries entries)
requests-compile_example = requests-compile entries compiles

compile-ne-out_of_fuel_example : compile entries ≢ err out_of_fuel
compile-ne-out_of_fuel_example = compile-ne-out_of_fuel entries

abbrev finished : Machine (Unit {0})
finished = (execute simple limits compiled idle).1

result : Text → StepResult
result url = record { url = url; status = 200; body_size = 0 }

runs_lem :
    execute simple limits compiled idle
    ≡ (ok (result (codes "https://host/a") ∷ result (codes "https://host/c") ∷ []), finished)
unfolding execute result qdrust.Executor.Exec.◌>>=◌ qdrust.Executor.Exec.change
    qdrust.Executor.Exec.with_context qdrust.Executor.Blocks.test_condition
    qdrust.Executor.Exec.call qdrust.Executor.Exec.lift qdrust.Executor.Exec.change_context
    qdrust.Base.starts_with qdrust.Executor.Exec.outside
    qdrust.Executor.Request.Parts.render_headers qdrust.Executor.Request.Parts.checked
    qdrust.Executor.Exec.pure qdrust.Executor.Request.Parts.render_cookies
    qdrust.Executor.Request.Parts.request_body qdrust.Executor.Response.is_empty_app_conf
    qdrust.Base.contains qdrust.Executor.Blocks.push_result
runs_lem = refl

length-execute_example :
    (2 + finished.context.remaining_requests ≡ min 5 10) × (finished.next_step_index ≡ 0 + 2)
length-execute_example = length-execute simple limits compiled idle runs_lem

events-execute_example :
    let t = (execute simple limits compiled idle).1 in
    (es : List Event) × (t.events ≡ [] ++ es) × Paired 0 es t.next_step_index
events-execute_example = events-execute simple limits compiled idle
