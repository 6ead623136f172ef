-- ===== src/Executor/Progress.antt =====
-- What a run of blocks does to the counters, the results and the events: executor.rs.
pub mod Trace
pub mod Runs
use qdrust.Base.{
  ℕ, zero, suc, ◌+◌, ◌-◌, ◌≤◌, ◌<◌, ltb, Text, Bool, true, false, Option, none, some, List, [], ◌∷◌,
  ◌++◌, length, length-append, append-nil, append_assoc, Result, ok, err, ◌≡◌, refl, sym, ap, subst,
  ◌∙◌, ◌⊎◌, inl, inr, arith, Bool-cases, if◌then◌else◌,
}
use qdrust.Executor.{
  Outside, Context, Machine, StepResult, ExecError, Event, Phase, started, finished,
}
use qdrust.Executor.Exec.{Exec, ◌>>=◌}
use qdrust.Executor.Guarantee.{Relation, IsLawful, Guarantee, succeeded}
use qdrust.Executor.Request.{
  execute_request, execute_request_inner, dispatch_request, spend, report, begin, emit,
  started_event, finished_event,
}
use qdrust.Executor.Request.Frame.{Frame, Frame-dispatch_request}

-- `Paired i es j`: the events of the requests `i`, …, `j - 1`, each a start and an end in turn.
pub data Paired : ℕ → List Event → ℕ → Type 0 where
  no_events : {i : ℕ} → Paired i [] i
  one_request :
      {i j : ℕ} {a b : Event} {es : List Event}
      → a.phase ≡ started
      → a.step_index ≡ i
      → b.phase ≡ finished
      → b.step_index ≡ i
      → Paired (suc i) es j
      → Paired i (a ∷ b ∷ es) j

pub Paired-append :
    {i j k : ℕ} {xs ys : List Event} → Paired i xs j → Paired j ys k → Paired i (xs ++ ys) k
Paired-append no_events q = q
Paired-append (one_request a b c d p) q = one_request a b c d (Paired-append p q)

-- The requests that were counted are paid for, one by one; only a request that found nothing left
-- is counted and not paid for, and it ends the run.
abbrev Paid : ℕ → ℕ → Bool → ℕ → ℕ → Type 0
Paid left index true left' index' = left' + index' ≡ left + index
Paid left index false left' index' =
    (left' + index' ≡ left + index) ⊎ ((left' ≡ 0) × (index' ≡ left + index + 1))

-- The results are those of the requests that succeeded; a run that succeeds has one for each.
abbrev Kept : ℕ → ℕ → Bool → ℕ → ℕ → Type 0
Kept results index true results' index' = results' + index ≡ results + index'
Kept results index false results' index' = results' + index ≤ results + index'

pub record Progress {W : Type 0} (s : Machine W) (b : Bool) (t : Machine W) : Type 0 where
  pub limit : t.context.loop_limit ≡ s.context.loop_limit
  pub paid :
      Paid s.context.remaining_requests s.next_step_index b t.context.remaining_requests
        t.next_step_index
  pub kept : Kept (length s.results) s.next_step_index b (length t.results) t.next_step_index
  pub traced :
      (es : List Event) × (t.events ≡ s.events ++ es)
      × Paired s.next_step_index es t.next_step_index

Paid-same : (l i : ℕ) (b : Bool) → Paid l i b l i
Paid-same l i true = refl
Paid-same l i false = inl refl

Kept-same : (r i : ℕ) (b : Bool) → Kept r i b r i
Kept-same r i true = refl
Kept-same r i false = omega arith

Paid-then : (l i m j n k : ℕ) (b : Bool) → Paid l i true m j → Paid m j b n k → Paid l i b n k
Paid-then l i m j n k true p q = omega arith
Paid-then l i m j n k false p q = omega arith

Kept-then : (l i m j n k : ℕ) (b : Bool) → Kept l i true m j → Kept m j b n k → Kept l i b n k
Kept-then l i m j n k true p q = omega arith
Kept-then l i m j n k false p q = omega arith

pub Progress-IsLawful : {W : Type 0} → IsLawful (Progress {W = W})
Progress-IsLawful = record {
  same = λ s b. record {
    limit = refl;
    paid = Paid-same _ _ b;
    kept = Kept-same _ _ b;
    traced = ([], sym (append-nil s.events), no_events);
  };
  then_after = λ s t u b p q. record {
    limit = q.limit ∙ p.limit;
    paid = Paid-then _ _ _ _ _ _ b p.paid q.paid;
    kept = Kept-then _ _ _ _ _ _ b p.kept q.kept;
    traced = (
      p.traced.0 ++ q.traced.0,
      q.traced.1
          ∙ ap (λ es. es ++ q.traced.0) p.traced.1
          ∙ append_assoc s.events p.traced.0 q.traced.0,
      Paired-append p.traced.2 q.traced.2,
    );
  };
}

Paid-unchanged : (l i m j : ℕ) (b : Bool) → m ≡ l → j ≡ i → Paid l i b m j
Paid-unchanged l i m j true p q = omega arith
Paid-unchanged l i m j false p q = inl (omega arith)

Kept-unchanged : (l i m j : ℕ) (b : Bool) → m ≡ l → j ≡ i → Kept l i b m j
Kept-unchanged l i m j true p q = omega arith
Kept-unchanged l i m j false p q = omega arith

-- A run that only writes to the context or the outside.
pub Frame-Progress : {W : Type 0} (s t : Machine W) (b : Bool) → Frame s b t → Progress s b t
Frame-Progress s t b f = record {
  limit = f.limit;
  paid = Paid-unchanged _ _ _ _ b f.remaining f.index;
  kept = Kept-unchanged _ _ _ _ b (ap length f.results) f.index;
  traced = (
    [],
    f.events ∙ sym (append-nil s.events),
    subst (Paired s.next_step_index []) (sym f.index) no_events,
  );
}
