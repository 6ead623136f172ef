-- ===== src/Executor/Progress/Trace.antt =====
-- A request, its events and its result: executor.rs.
use qdrust.Base.{
  ℕ, suc, ◌+◌, ltb, ltb→lt, Text, Bool, true, false, List, [], ◌∷◌, ◌++◌, length, length-append,
  append_assoc, Result, ok, err, ◌≡◌, refl, sym, ap, subst, ◌∙◌, ◌⊎◌, inl, inr, arith, Bool-cases,
}
use qdrust.Har.{Entry}
use qdrust.Executor.{
  Outside, Machine, StepResult, ExecError, Event, started, finished, request_limit_exceeded,
}
use qdrust.Executor.Exec.{gets, lift, change, change_context, continue, ◌>>=◌}
use qdrust.Executor.Guarantee.{Guarantee, succeeded}
use qdrust.Executor.Request.{
  execute_request, execute_request_inner, dispatch_request, spend, report, begin, or_raw,
}
use qdrust.Executor.Blocks.{push_result}
use qdrust.Executor.Request.Frame.{Frame-dispatch_request}
use qdrust.Executor.Progress.{Paired, no_events, one_request, Progress}

-- What `execute_request_inner` takes: one request from those that are left, where there is one.
pub record Spent {W : Type 0} (s : Machine W) (b : Bool) (t : Machine W) : Type 0 where
  pub limit : t.context.loop_limit ≡ s.context.loop_limit
  pub index : t.next_step_index ≡ s.next_step_index
  pub results : t.results ≡ s.results
  pub events : t.events ≡ s.events
  pub taken :
      (t.context.remaining_requests + 1 ≡ s.context.remaining_requests)
      ⊎ ((b ≡ false) × (s.context.remaining_requests ≡ 0) × (t.context.remaining_requests ≡ 0))

two_events :
    (before now : List Event) (i j : ℕ) (a b : Event)
    → now ≡ before ++ a ∷ []
    → j ≡ suc i
    → a.phase ≡ started
    → a.step_index ≡ i
    → b.phase ≡ finished
    → b.step_index ≡ i
    → (es : List Event) × (now ++ b ∷ [] ≡ before ++ es) × Paired i es j
two_events before now i j a b e n p q r s = (
  a ∷ b ∷ [],
  ap (λ es. es ++ b ∷ []) e ∙ append_assoc before (a ∷ []) (b ∷ []),
  subst (Paired i (a ∷ b ∷ [])) (sym n) (one_request p q r s no_events),
)

module _ {W : Type 0} (o : Outside W) (limit : ℕ) (entry : Entry) where
  pub inner_refused :
      (s : Machine W)
      → ltb 0 s.context.remaining_requests ≡ false
      → execute_request_inner o limit entry s ≡ (err request_limit_exceeded, s)
  unfolding execute_request_inner ◌>>=◌ gets lift
  inner_refused s h = rw h

  pub inner_accepted :
      (s : Machine W)
      → ltb 0 s.context.remaining_requests ≡ true
      → execute_request_inner o limit entry s
        ≡ dispatch_request o limit entry (record s { context = spend s.context })
  unfolding execute_request_inner ◌>>=◌ gets lift change_context
  inner_accepted s h = rw h

  pub Spent-inner : Guarantee Spent (execute_request_inner o limit entry)
  unfolding spend
  Spent-inner = record {
    at = λ s. elim (Bool-cases (ltb 0 s.context.remaining_requests)) [
      | inl more ↦
          let f =
            (Frame-dispatch_request o limit entry).at (record s { context = spend s.context }) in
          rw (inner_accepted s more) (record {
            limit = f.limit;
            index = f.index;
            results = f.results;
            events = f.events;
            taken = inl (omega (arith, f.remaining, ltb→lt _ _ more));
          })
      | inr over ↦ rw (inner_refused s over) (record {
        limit = refl;
        index = refl;
        results = refl;
        events = refl;
        taken = inr (refl, ground arith, ground arith);
      })
    ];
  }

  -- The first event is out and the request is counted; the second event closes it.
  after_inner :
      (s : Machine W) (method url : Text) (x : Result ExecError StepResult × Machine W)
      → Spent (begin o limit s.next_step_index method url s) (succeeded x.0) x.1
      → let (r, t) = report o limit s.next_step_index method url x in
        let y = continue r (λ result. change (push_result result)) t in
        Progress s (succeeded y.0) y.1
  unfolding begin report push_result continue change
  after_inner s method url (ok r, t) h = record {
    limit = h.limit;
    paid = ground arith;
    kept = omega (arith, length-append t.results (r ∷ []), ap length h.results);
    traced = two_events s.events t.events _ _ _ _ h.events h.index refl refl refl refl;
  }
  after_inner s method url (err e, t) h = record {
    limit = h.limit;
    paid = ground arith;
    kept = omega (arith, ap length h.results);
    traced = two_events s.events t.events _ _ _ _ h.events h.index refl refl refl refl;
  }

  -- A request and the push of its result.
  pub request-Progress :
      Guarantee Progress (execute_request o limit entry >>= λ result. change (push_result result))
  unfolding execute_request ◌>>=◌
  request-Progress = record {
    at = λ s.
        let url =
          or_raw o limit entry.request.url (o.render entry.request.url s.context.variables) in
        after_inner s entry.request.method url _
          (Spent-inner.at (begin o limit s.next_step_index entry.request.method url s));
  }
