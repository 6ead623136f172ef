-- ===== src/Scheduler/Trace.antt =====
-- What the observer of `execute_with_run` in scheduler.rs keeps of a run, and the texts it makes.
use qdrust.Base.{
  ℕ, ◌+◌, ◌-◌, ◌*◌, ◌≤◌, leb, ltb, Text, codes, join, is_empty, List, [], ◌∷◌, ◌++◌, length, take,
  if◌then◌else◌, ◌≡◌, refl, arith, Bool-cases, inl, inr,
}

-- A text of at most this many characters, and dots where it was cut.
unfoldable pub dotted : ℕ → Text → Text
dotted limit t = if ltb limit (length t) then take limit t ++ codes "..." else take limit t

unfoldable pub bounded_error : Text → Text
unfolding dotted
bounded_error message = dotted 4096 message

unfoldable pub truncate_name : Text → ℕ → Text
unfolding dotted
truncate_name name limit = dotted limit name

-- `char::len_utf8` and `str::len`
unfoldable pub utf8_length : ℕ → ℕ
utf8_length c = if ltb c 0x80 then 1 else if ltb c 0x800 then 2 else if ltb c 0x10000 then 3 else 4

unfoldable pub byte_length : Text → ℕ
unfolding utf8_length
byte_length [] = 0
byte_length (c ∷ t) = utf8_length c + byte_length t

-- `truncate` at the last character boundary that is not past the limit.
unfoldable pub take_bytes : ℕ → Text → Text
unfolding utf8_length
take_bytes limit [] = []
take_bytes limit (c ∷ t) =
    let rest = take_bytes (limit - utf8_length c) t in
    if leb (utf8_length c) limit then c ∷ rest else []

abbrev pub max_trace_bytes : ℕ
max_trace_bytes = 256 * 1024

unfoldable pub whole_trace : List Text → Text → Text
whole_trace steps message =
    if is_empty steps
    then codes "No request step completed before the failure.\n\n" ++ message
    else join (codes "\n\n") steps ++ codes "\n\nerror:\n" ++ message

unfoldable pub format_trace : List Text → Text → Text
unfolding whole_trace byte_length take_bytes
format_trace steps message =
    let trace = whole_trace steps message in
    if ltb max_trace_bytes (byte_length trace)
    then take_bytes max_trace_bytes trace ++ codes "\n\n[trace truncated]"
    else trace

byte_length-take_bytes : (limit : ℕ) (t : Text) → byte_length (take_bytes limit t) ≤ limit
unfolding byte_length take_bytes
byte_length-take_bytes limit [] = omega arith
byte_length-take_bytes limit (c ∷ t) =
    ground (arith, byte_length-take_bytes (limit - utf8_length c) t)

byte_length-append : (a b : Text) → byte_length (a ++ b) ≡ byte_length a + byte_length b
unfolding byte_length
byte_length-append [] b = omega arith
byte_length-append (c ∷ a) b = omega (arith, byte_length-append a b)

abbrev note : Text
note = codes "\n\n[trace truncated]"

note_lem : byte_length note ≡ 19
unfolding byte_length
note_lem = refl

-- The trace that is stored takes at most 256 KiB and the 19 bytes of the note that it was cut.
pub byte_length-format_trace-le :
    (steps : List Text) (message : Text)
    → byte_length (format_trace steps message) ≤ max_trace_bytes + 19
unfolding format_trace
byte_length-format_trace-le steps message =
    let trace = whole_trace steps message in
    elim (Bool-cases (ltb max_trace_bytes (byte_length trace))) [
      | inl e ↦ rw e (
          omega (
            arith,
            byte_length-append (take_bytes max_trace_bytes trace) note,
            byte_length-take_bytes max_trace_bytes trace,
            note_lem,
          ))
      | inr e ↦ rw e (ground (arith, e))
    ]
