-- ===== src/Har/Meaning.antt =====
-- What holds of the programs that `QdProgram::compile` of qd_har.rs makes.
use qdrust.Base.{List, [], ok, err, keep_if, append-nil, ◌≡◌, ◌≢◌, ◌↔◌, sym, ◌∙◌}
use qdrust.Har.{Entry, Blocks}
use qdrust.Har.Compile.{compile, enabled_entries, out_of_fuel}
use qdrust.Har.Grammar.{Seq}
use qdrust.Har.Grammar.Sound.{compile_enabled-Seq}
use qdrust.Har.Grammar.Complete.{Seq-compile_enabled}
use qdrust.Har.Grammar.Fuel.{compile_enabled_fed}
use qdrust.Har.Grammar.Requests.{requests, is_request, Seq-requests}

-- The compiler returns a program exactly when the grammar of the control tags derives that
-- program from the enabled entries, with no entry left over.
pub compile-iff-Seq :
    (entries : List Entry) (bs : Blocks)
    → (compile entries ≡ ok bs) ↔ Seq (enabled_entries entries) bs []
unfolding compile
compile-iff-Seq entries bs = (compile_enabled-Seq _, Seq-compile_enabled)

-- A program that was compiled holds the enabled entries that are no control tags, each once and
-- in the order of the document.
pub requests-compile :
    (entries : List Entry) {bs : Blocks}
    → compile entries ≡ ok bs
    → requests bs ≡ keep_if is_request (enabled_entries entries)
unfolding compile
requests-compile entries {bs} h =
    sym (append-nil (requests bs)) ∙ sym (Seq-requests (compile_enabled-Seq _ h))

-- The compiler returns a program or one of the errors of the source: its fuel is never used up.
pub compile-ne-out_of_fuel : (entries : List Entry) → compile entries ≢ err out_of_fuel
unfolding compile
compile-ne-out_of_fuel entries = compile_enabled_fed _
