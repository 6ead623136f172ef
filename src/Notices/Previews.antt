-- ===== src/Notices/Previews.antt =====
-- A preview of a binding against what the binding is delivered for.
use qdrust.Base.{
  ℕ, ◌==◌, Text, text_eq, text_eq→eq, Bool, true, ◌||◌, Option, some, ◌≡◌, refl, sym, subst, inl,
  inr, Bool-cases,
}
use qdrust.Notices.{Action, is_bound, preview_event, event_success, event_failure, event_always}

names_event :
    (task_id : ℕ) (event : Text) (a : Action)
    → is_bound task_id event a ≡ true
    → text_eq a.event event || text_eq a.event event_always ≡ true
unfolding is_bound
names_event task_id event a h = elim (Bool-cases (a.task_id == task_id)) [
  | inl e ↦ rw e at h
  | inr e ↦ cc (rw e at h)
]

-- What is previewed for a failure, and for a success.
failure_lem :
    (t : Text) (failed : Option Bool)
    → text_eq t event_failure || text_eq t event_always ≡ true
    → preview_event t (some event_failure) failed ≡ event_failure
unfolding preview_event
failure_lem t failed h = elim (Bool-cases (text_eq t event_failure)) [
  | inl e ↦ rw e refl
  | inr e ↦ rw (e, (rw e at h)) refl
]

success_lem :
    (t : Text) (failed : Option Bool)
    → text_eq t event_success || text_eq t event_always ≡ true
    → preview_event t (some event_success) failed ≡ event_success
unfolding preview_event
success_lem t failed h = elim (Bool-cases (text_eq t event_success)) [
  | inl e ↦
      subst (λ t. preview_event t (some event_success) failed ≡ event_success)
        (sym (text_eq→eq t event_success e)) refl
  | inr e ↦
      subst (λ t. preview_event t (some event_success) failed ≡ event_success)
        (sym (text_eq→eq t event_always (rw e at h))) refl
]

-- A binding that is delivered for an outcome is previewed as that outcome where it is asked for.
pub preview_event-is_bound :
    (task_id : ℕ) (event : Text) (a : Action) (previewed_run_failed : Option Bool)
    → text_eq event event_success || text_eq event event_failure ≡ true
    → is_bound task_id event a ≡ true
    → preview_event a.event (some event) previewed_run_failed ≡ event
unfolding preview_event is_bound
preview_event-is_bound task_id event a previewed_run_failed outcome bound =
    let named = names_event task_id event a bound in
    elim (Bool-cases (text_eq event event_success)) [
      | inl e ↦
          (let same = text_eq→eq event event_success e in
            subst
              (λ v.
                text_eq a.event v || text_eq a.event event_always ≡ true
                → preview_event a.event (some v) previewed_run_failed ≡ v)
              (sym same) (success_lem a.event previewed_run_failed) named)
      | inr e ↦
          (let same = text_eq→eq event event_failure (rw e at outcome) in
            subst
              (λ v.
                text_eq a.event v || text_eq a.event event_always ≡ true
                → preview_event a.event (some v) previewed_run_failed ≡ v)
              (sym same) (failure_lem a.event previewed_run_failed) named)
    ]
