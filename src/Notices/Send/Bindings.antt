-- ===== src/Notices/Send/Bindings.antt =====
-- Which bindings an outcome is told over, stated on the tables.
use qdrust.Base.{
  ℕ, ◌≤◌, leb, ltb, Text, text_eq, codes, Bool, true, not, ◌&&◌, keep_if, Option, none, some, List,
  [], ◌∷◌, ◌≡◌, ◌≢◌, ◌⊎◌, inl, inr, refl, sym, ap, subst, arith, ◌∙◌,
}
use mathlib.Core.Option.{some-injective, none-ne-some}
use qdrust.Base.Counting.{
  Among, Counts, Counts-unique, Decides, iff-Decides, and-Decides, or-Decides, unless-Decides,
  eq-Decides, leb-Decides, text_eq-Decides, true-Decides,
}
use qdrust.Runs.{Run, Queue, find, count_recent_failures}
use qdrust.Notices.{
  Action, Channel, Desk, is_bound, enabled_channel, with_channel, joined,
  notification_channels_for_event, event_success, event_failure, event_always,
}
use qdrust.Notices.Send.{is_automatic, is_wanted, failures_for}
use qdrust.Notices.Send.Failures.{IsRecentFailure, recent-Counts}

-- The outcome of a run is told over a binding and a channel: the binding is the task's and for the
-- event or for both, the channel is its own and enabled; where it is for automatic runs only, the
-- run is there and was not started by hand; and a failure is at least the one it waits for.
pub record Passes (d : Desk) (task_id run_id : ℕ) (event : Text) (a : Action) (c : Channel)
    : Type 0 where
  pub outcome : (event ≡ event_success) ⊎ (event ≡ event_failure)
  pub task : a.task_id ≡ task_id
  pub for_event : (a.event ≡ event) ⊎ (a.event ≡ event_always)
  pub stored : Among c d.channels
  pub own : c.id ≡ a.channel_id
  pub enabled : c.enabled ≡ true
  pub automatic :
      a.automatic_only ≡ true
      → (r : Run) × (find run_id d.queue.runs ≡ some r) × (r.trigger ≢ codes "manual")
  pub threshold :
      event ≡ event_failure
      → (n : ℕ) × Counts (IsRecentFailure task_id d.queue.runs) d.queue.runs n
        × (a.failure_threshold ≤ n)

-- The bindings with a channel over which an outcome is told, in the order of the bindings.
pub data Selected (d : Desk) (task_id run_id : ℕ) (event : Text)
    : List Action → List (Action × Channel) → Type 0 where
  done : Selected d task_id run_id event [] []
  told :
      {a : Action} {c : Channel} {rest : List Action} {bs : List (Action × Channel)}
      → Passes d task_id run_id event a c
      → Selected d task_id run_id event rest bs
      → Selected d task_id run_id event (a ∷ rest) ((a, c) ∷ bs)
  skipped :
      {a : Action} {rest : List Action} {bs : List (Action × Channel)}
      → ((c : Channel) → ¬ Passes d task_id run_id event a c)
      → Selected d task_id run_id event rest bs
      → Selected d task_id run_id event (a ∷ rest) bs

-- A run that is there and was not started by hand.
IsAutomatic : Option Run → Type 0
IsAutomatic run = (r : Run) × (run ≡ some r) × (r.trigger ≢ codes "manual")

is_automatic-Decides : (run : Option Run) → Decides (is_automatic run) (IsAutomatic run)
unfolding is_automatic IsAutomatic
is_automatic-Decides none = inr (refl, λ h. none-ne-some h.0 h.1)
is_automatic-Decides (some r) = elim (text_eq-Decides r.trigger (codes "manual")) [
  | inl (e, p) ↦
      rw e (inr (refl, λ h. h.2 (ap (λ (x : Run). x.trigger) (sym (some-injective r h.0 h.1)) ∙ p)))
  | inr (e, m) ↦ rw e (inl (refl, (r, refl, m)))
]

ltb-eq-not-leb : (m n : ℕ) → ltb m n ≡ not (leb n m)
ltb-eq-not-leb m n = ground arith

Reached : ℕ → Text → Queue → Action → Type 0
Reached task_id event q a =
    event ≡ event_failure
    → (n : ℕ) × Counts (IsRecentFailure task_id q.runs) q.runs n × (a.failure_threshold ≤ n)

threshold-Decides :
    (task_id : ℕ) (event : Text) (q : Queue) (a : Action)
    → Decides
        (not
          (text_eq event event_failure && ltb (failures_for task_id event q) a.failure_threshold))
        (Reached task_id event q a)
unfolding failures_for Reached
threshold-Decides task_id event q a =
    let count = count_recent_failures task_id q in
    elim (text_eq-Decides event event_failure) [
      | inl (e, p) ↦
          rw (e, ltb-eq-not-leb count a.failure_threshold)
            (iff-Decides
              (λ (h : Unit {0} → a.failure_threshold ≤ count) _.
                (count, recent-Counts task_id q, h tt))
              (λ h _.
                subst (λ m. a.failure_threshold ≤ m)
                  (Counts-unique (IsRecentFailure task_id q.runs) q.runs (h p).0 count (h p).1
                    (recent-Counts task_id q))
                  (h p).2)
              (unless-Decides (inl (refl, tt)) (leb-Decides a.failure_threshold count)))
      | inr (e, m) ↦ rw e (inl (refl, λ p. absurd (m p)))
    ]

IsUsable : ℕ → Channel → Type 0
IsUsable id c = (c.id ≡ id) × (c.enabled ≡ true)

none-IsUsable :
    (id : ℕ) (x : Channel) (cs : List Channel)
    → ¬ IsUsable id x
    → ((c : Channel) → Among c cs → ¬ IsUsable id c)
    → (c : Channel) → Among c (x ∷ cs)
    → ¬ IsUsable id c
none-IsUsable id x cs m free c (inl e) u = m (subst (IsUsable id) e u)
none-IsUsable id x cs m free c (inr h) u = free c h u

-- The channel that a binding names is found exactly where there is one that is enabled.
enabled_channel-cases :
    (id : ℕ) (cs : List Channel)
    → ((enabled_channel id cs ≡ none) × ((c : Channel) → Among c cs → ¬ IsUsable id c))
      ⊎ ((c : Channel) × (enabled_channel id cs ≡ some c) × Among c cs × IsUsable id c)
unfolding enabled_channel IsUsable
enabled_channel-cases id [] = inl (refl, λ c h. absurd h)
enabled_channel-cases id (x ∷ cs) =
    elim (and-Decides (eq-Decides x.id id) (true-Decides x.enabled)) [
      | inl (e, p) ↦ inr (x, rw e refl, inl refl, p)
      | inr (e, m) ↦ elim (enabled_channel-cases id cs) [
        | inl (n, free) ↦ inl (rw e n, none-IsUsable id x cs m free)
        | inr (c, s, w, u) ↦ inr (c, rw e s, inr w, u)
      ]
    ]

module _ (task_id run_id : ℕ) (event : Text) (d : Desk) where
  abbrev pub passing : Action × Channel → Bool
  passing =
      is_wanted event (is_automatic (find run_id d.queue.runs)) (failures_for task_id event d.queue)

  wanted-Decides :
      (a : Action) (c : Channel)
      → Decides (passing (a, c)) (
          (a.automatic_only ≡ true → IsAutomatic (find run_id d.queue.runs))
          × Reached task_id event d.queue a)
  unfolding is_wanted
  wanted-Decides a c =
      and-Decides
        (unless-Decides (true-Decides a.automatic_only)
          (is_automatic-Decides (find run_id d.queue.runs)))
        (threshold-Decides task_id event d.queue a)

  bound-Decides :
      (a : Action)
      → Decides
          (is_bound task_id event a)
          ((a.task_id ≡ task_id) × ((a.event ≡ event) ⊎ (a.event ≡ event_always)))
  unfolding is_bound
  bound-Decides a =
      and-Decides (eq-Decides a.task_id task_id)
        (or-Decides (text_eq-Decides a.event event) (text_eq-Decides a.event event_always))

  joined-Selected :
      (event ≡ event_success) ⊎ (event ≡ event_failure)
      → (actions : List Action)
      → Selected d task_id run_id event actions
          (keep_if passing (joined d.channels (keep_if (is_bound task_id event) actions)))
  unfolding joined with_channel IsAutomatic Reached IsUsable
  joined-Selected o [] = done
  joined-Selected o (a ∷ rest) = elim (bound-Decides a) [
    | inr (e, m) ↦ rw e (skipped (λ c p. m (p.task, p.for_event)) (joined-Selected o rest))
    | inl (e, b) ↦ elim (enabled_channel-cases a.channel_id d.channels) [
      | inl (n, free) ↦
          rw (e, n) (skipped (λ c p. free c p.stored (p.own, p.enabled)) (joined-Selected o rest))
      | inr (c, s, w, u) ↦ elim (wanted-Decides a c) [
        | inl (f, t) ↦
            rw (e, s, f)
              (told
                (record {
                  outcome = o;
                  task = b.0;
                  for_event = b.1;
                  stored = w;
                  own = u.0;
                  enabled = u.1;
                  automatic = t.0;
                  threshold = t.1;
                })
                (joined-Selected o rest))
        | inr (f, m) ↦
            rw (e, s, f) (skipped (λ _ p. m (p.automatic, p.threshold)) (joined-Selected o rest))
      ]
    ]
  ]

  none-Selected :
      ¬ ((event ≡ event_success) ⊎ (event ≡ event_failure))
      → (actions : List Action) → Selected d task_id run_id event actions []
  none-Selected n [] = done
  none-Selected n (a ∷ rest) = skipped (λ c p. n p.outcome) (none-Selected n rest)

  -- The bindings that the store gives for an event, and of them those that let it pass.
  pub notification_channels_for_event-Selected :
      ((bindings : List (Action × Channel)) × (notification_channels_for_event task_id event d
          ≡ some bindings)
        × Selected d task_id run_id event d.actions (keep_if passing bindings))
      ⊎ ((notification_channels_for_event task_id event d ≡ none)
          × Selected d task_id run_id event d.actions [])
  unfolding notification_channels_for_event
  notification_channels_for_event-Selected =
      elim (or-Decides (text_eq-Decides event event_success)
        (text_eq-Decides event event_failure)) [
          | inl (e, o) ↦ inl (
            joined d.channels (keep_if (is_bound task_id event) d.actions),
            rw e refl,
            joined-Selected o d.actions,
          )
          | inr (e, n) ↦ inr (rw e refl, none-Selected n d.actions)
        ]
