-- ===== src/Notices/Send/Ledger.antt =====
-- What the ledger of deliveries has after messages were sent and sent again.
use qdrust.Base.{
  ℕ, Text, keep_if, Option, none, some, List, [], ◌∷◌, ◌++◌, map, inl, inr, append-nil,
  append_assoc, ◌≡◌, refl, sym, ap, ◌∙◌,
}
use qdrust.Json.{Value}
use qdrust.Runs.{Run, find}
use qdrust.Scheduler.{Task}
use qdrust.Notices.{
  Action, Channel, DefaultTemplate, Delivery, Desk, TemplateVars, notification_channels_for_event,
}
use qdrust.Notices.Deliver.{Outbox}
use qdrust.Notices.Send.Attempts.{IsNumbered, snoc-IsNumbered}
use qdrust.Notices.Send.Bindings.{Selected, passing, notification_channels_for_event-Selected}
use qdrust.Notices.Send.{
  is_wanted, is_automatic, ledger_row, failures_for, send_one, send_each, send_bound, retry_vars,
  retry_payload, default_for, column, send_notifications, retry_run, retry_delivery,
}

-- What a row is about.
pub key_of : Delivery → ℕ × ℕ × ℕ × Text
key_of r = (r.run_id, r.action_id, r.channel_id, r.event)

abbrev pub keys_for : ℕ → Text → List (Action × Channel) → List (ℕ × ℕ × ℕ × Text)
keys_for run_id event bindings =
    map (λ (b : Action × Channel). (run_id, b.0.id, b.1.id, event)) bindings

-- A step: a run's outcome is told, or a delivery is tried again.
pub data Telling : Type 0 where
  outcome : Task → ℕ → Text → Option ℕ → Option Text → Option Text → ℕ → Telling
  again : Delivery → Task → Action × Channel → Telling

module _ {W : Type 0} (o : Outbox W) (format_time : ℕ → Option Text → Text) where
  send_one-IsNumbered :
      (task_id : ℕ) (b : Action × Channel) (vars : TemplateVars) (payload : Value)
      (t : Option DefaultTemplate) (d : Desk) (w : W)
      → IsNumbered d.ledger
      → IsNumbered (send_one o format_time task_id b vars payload t d w).1.ledger
  unfolding send_one
  send_one-IsNumbered task_id (a, c) vars payload t d w h = snoc-IsNumbered _ d.ledger refl h

  send_each-IsNumbered :
      (task_id : ℕ) (bs : List (Action × Channel)) (vars : TemplateVars) (payload : Value)
      (t : Option DefaultTemplate) (d : Desk) (w : W)
      → IsNumbered d.ledger
      → IsNumbered (send_each o format_time task_id bs vars payload t d w).0.ledger
  unfolding send_each
  send_each-IsNumbered task_id [] vars payload t d w h = h
  send_each-IsNumbered task_id (b ∷ bs) vars payload t d w h =
      let sent = send_one o format_time task_id b vars payload t d w in
      send_each-IsNumbered task_id bs vars payload t sent.1 sent.2
        (send_one-IsNumbered task_id b vars payload t d w h)

  send_each-keys :
      (task_id : ℕ) (bs : List (Action × Channel)) (vars : TemplateVars) (payload : Value)
      (t : Option DefaultTemplate) (d : Desk) (w : W)
      → (rows : List Delivery) × ((send_each o format_time task_id bs vars payload t d w).0.ledger
          ≡ d.ledger ++ rows)
        × (map key_of rows ≡ keys_for vars.run_id vars.event bs)
  unfolding send_each send_one key_of
  send_each-keys task_id [] vars payload t d w = ([], sym (append-nil d.ledger), refl)
  send_each-keys task_id (b ∷ bs) vars payload t d w =
      let sent = send_one o format_time task_id b vars payload t d w in
      let (rows, same, keys) = send_each-keys task_id bs vars payload t sent.1 sent.2 in
      let row = ledger_row task_id b vars sent.0 d.ledger in
      (
        row ∷ rows,
        same ∙ append_assoc d.ledger (row ∷ []) rows,
        ap (λ ks. (vars.run_id, b.0.id, b.1.id, vars.event) ∷ ks) keys,
      )

  bound-keys :
      (task : Task) (run_id : ℕ) (event : Text) (http_status : Option ℕ)
      (error_message log_message : Option Text) (now : ℕ) (d : Desk) (w : W)
      (bindings : List (Action × Channel))
      → notification_channels_for_event task.id event d ≡ some bindings
      → (rows : List Delivery) × ((send_notifications o format_time task run_id event http_status
            error_message log_message now d w).0.ledger
          ≡ d.ledger ++ rows)
        × (map key_of rows
            ≡ keys_for run_id event (keep_if (passing task.id run_id event d) bindings))
  unfolding send_notifications send_bound
  bound-keys task run_id event http_status error_message log_message now d w bindings h =
      rw h (send_each-keys task.id (keep_if (passing task.id run_id event d) bindings) _ _ _ d w)

  unbound-ledger :
      (task : Task) (run_id : ℕ) (event : Text) (http_status : Option ℕ)
      (error_message log_message : Option Text) (now : ℕ) (d : Desk) (w : W)
      → notification_channels_for_event task.id event d ≡ none
      → (send_notifications o format_time task run_id event http_status error_message log_message
          now d w).0.ledger
        ≡ d.ledger ++ []
  unfolding send_notifications send_bound
  unbound-ledger task run_id event http_status error_message log_message now d w h =
      rw h (sym (append-nil d.ledger))

  -- An outcome is told over just the bindings of the task for that event whose channel is stored and
  -- enabled, that ask for any run or find one that was not started by hand, and, for a failure,
  -- whose threshold the failures since the last success reach; in the order of the bindings, each
  -- with one new row of the ledger; over none where the event is neither success nor failure.
  pub send_notifications-keys :
      (task : Task) (run_id : ℕ) (event : Text) (http_status : Option ℕ)
      (error_message log_message : Option Text) (now : ℕ) (d : Desk) (w : W)
      → (bindings : List (Action × Channel)) × (rows : List Delivery) × Selected d task.id run_id
          event d.actions bindings
        × ((send_notifications o format_time task run_id event http_status error_message log_message
              now d w).0.ledger
            ≡ d.ledger ++ rows)
        × (map key_of rows ≡ keys_for run_id event bindings)
  send_notifications-keys task run_id event http_status error_message log_message now d w =
      elim (notification_channels_for_event-Selected task.id run_id event d) [
        | inl (bindings, e, chosen) ↦
            (let (rows, same, keys) =
                bound-keys task run_id event http_status error_message log_message now d w bindings
                  e in
              (keep_if (passing task.id run_id event d) bindings, rows, chosen, same, keys))
        | inr (e, chosen) ↦ (
          [],
          [],
          chosen,
          unbound-ledger task run_id event http_status error_message log_message now d w e,
          refl,
        )
      ]

  pub tell : Telling → Desk × W → Desk × W
  unfolding send_notifications retry_delivery
  tell (outcome task run_id event http_status error_message log_message now) (d, w) =
      send_notifications o format_time task run_id event http_status error_message log_message now d
        w
  tell (again delivery task b) (d, w) =
      let sent = retry_delivery o format_time delivery task b d w in (sent.1, sent.2)

  unfoldable pub tell_all : List Telling → Desk × W → Desk × W
  unfolding tell
  tell_all [] s = s
  tell_all (t ∷ ts) s = tell_all ts (tell t s)

  bound-IsNumbered :
      (bindings : Option (List (Action × Channel))) (task : Task) (run_id : ℕ) (event : Text)
      (http_status : Option ℕ) (error_message log_message : Option Text) (now : ℕ) (d : Desk)
      (w : W)
      → IsNumbered d.ledger
      → IsNumbered
          (send_bound o format_time bindings task run_id event http_status error_message log_message
            now d w).0.ledger
  unfolding send_bound
  bound-IsNumbered none task run_id event http_status error_message log_message now d w h = h
  bound-IsNumbered (some bindings) task run_id event http_status error_message log_message now d w
        h =
      send_each-IsNumbered task.id
        (keep_if
          (is_wanted event (is_automatic (find run_id d.queue.runs))
            (failures_for task.id event d.queue))
          bindings)
        _ _ _ d w h

  retry-IsNumbered :
      (run : Option Run) (delivery : Delivery) (task : Task) (b : Action × Channel) (d : Desk)
      (w : W)
      → IsNumbered d.ledger
      → IsNumbered (retry_run o format_time run delivery task b d w).1.ledger
  unfolding retry_run
  retry-IsNumbered none delivery task b d w h = h
  retry-IsNumbered (some run) delivery task b d w h =
      send_one-IsNumbered task.id b (retry_vars o format_time run delivery task d)
        (retry_payload o format_time run delivery task)
        (default_for (column task.id d.owners) delivery.event d.defaults) d w h

  tell-IsNumbered :
      (t : Telling) (d : Desk) (w : W) → IsNumbered d.ledger → IsNumbered (tell t (d, w)).0.ledger
  unfolding tell send_notifications retry_delivery
  tell-IsNumbered (outcome task run_id event http_status error_message log_message now) d w h =
      bound-IsNumbered (notification_channels_for_event task.id event d) task run_id event
        http_status error_message log_message now d w h
  tell-IsNumbered (again delivery task b) d w h =
      retry-IsNumbered (find delivery.run_id d.queue.runs) delivery task b d w h

  -- Over any sequence of outcomes that are told and deliveries that are tried again, a ledger in
  -- which each row keeps as its attempt one more than the number of rows before it for the same
  -- run, action, channel and event stays one.
  pub tell_all-IsNumbered :
      (ts : List Telling) (d : Desk) (w : W)
      → IsNumbered d.ledger
      → IsNumbered (tell_all ts (d, w)).0.ledger
  unfolding tell_all
  tell_all-IsNumbered [] d w h = h
  tell_all-IsNumbered (t ∷ ts) d w h =
      tell_all-IsNumbered ts (tell t (d, w)).0 (tell t (d, w)).1 (tell-IsNumbered t d w h)
