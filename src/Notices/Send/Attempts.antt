-- ===== src/Notices/Send/Attempts.antt =====
-- The number that a row of the ledger keeps of its attempt, and what it counts.
use qdrust.Base.{ℕ, suc, List, [], ◌∷◌, ◌++◌, append-nil, append_assoc, ◌≡◌, sym, subst}
use qdrust.Base.Counting.{
  Counts, length-keep_if-Counts, and-Decides, iff-Decides, eq-Decides, text_eq-Decides, Decides,
}
use qdrust.Notices.{Delivery}
use qdrust.Notices.Send.{is_attempt, count_notification_attempts}

-- Two rows are tries of one message.
pub record IsSameMessage (r q : Delivery) : Type 0 where
  pub run : q.run_id ≡ r.run_id
  pub action : q.action_id ≡ r.action_id
  pub channel : q.channel_id ≡ r.channel_id
  pub event : q.event ≡ r.event

-- The attempt of a row is one more than the number of earlier rows for the same message.
pub Numbered : Delivery → List Delivery → Type 0
Numbered r earlier = (n : ℕ) × (r.attempt ≡ suc n) × Counts (IsSameMessage r) earlier n

NumberedAfter : List Delivery → List Delivery → Type 0
NumberedAfter earlier [] = Unit
NumberedAfter earlier (r ∷ rs) = Numbered r earlier × NumberedAfter (earlier ++ r ∷ []) rs

unfoldable pub IsNumbered : List Delivery → Type 0
unfolding NumberedAfter Numbered
IsNumbered ledger = NumberedAfter [] ledger

snoc-NumberedAfter :
    (earlier rows : List Delivery) (r : Delivery)
    → NumberedAfter earlier rows
    → Numbered r (earlier ++ rows)
    → NumberedAfter earlier (rows ++ r ∷ [])
unfolding NumberedAfter
snoc-NumberedAfter earlier [] r h n = (subst (Numbered r) (append-nil earlier) n, tt)
snoc-NumberedAfter earlier (q ∷ rows) r (m, h) n = (
  m,
  snoc-NumberedAfter (earlier ++ q ∷ []) rows r h
      (subst (Numbered r) (sym (append_assoc earlier (q ∷ []) rows)) n),
)

is_attempt-Decides :
    (r q : Delivery)
    → Decides (is_attempt r.run_id r.action_id r.channel_id r.event q) (IsSameMessage r q)
unfolding is_attempt
is_attempt-Decides r q =
    iff-Decides (λ h. record { run = h.0.0.0; action = h.0.0.1; channel = h.0.1; event = h.1 })
      (λ s. (((s.run, s.action), s.channel), s.event))
      (and-Decides
        (and-Decides
          (and-Decides (eq-Decides q.run_id r.run_id) (eq-Decides q.action_id r.action_id))
          (eq-Decides q.channel_id r.channel_id))
        (text_eq-Decides q.event r.event))

-- A row that takes the store's count for its attempt keeps a ledger numbered.
pub snoc-IsNumbered :
    (r : Delivery) (ledger : List Delivery)
    → r.attempt ≡ suc (count_notification_attempts r.run_id r.action_id r.channel_id r.event ledger)
    → IsNumbered ledger
    → IsNumbered (ledger ++ r ∷ [])
unfolding IsNumbered count_notification_attempts
snoc-IsNumbered r ledger e h = snoc-NumberedAfter [] ledger r h (
  count_notification_attempts r.run_id r.action_id r.channel_id r.event ledger,
  e,
  length-keep_if-Counts (IsSameMessage r) (is_attempt r.run_id r.action_id r.channel_id r.event)
      (is_attempt-Decides r) ledger,
)
