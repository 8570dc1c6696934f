-- ===== src/Outbox/Delivery.antt =====
-- The life of one row: what a send and the provider's answer make of it, and what they leave alone.
use native.Mathlib.Decide.{ℕ_discrete}
use native.Mathlib.Numerals.{add-one}
use ivis_backend.Base.{
  ℕ, ◌+◌, ◌≤◌, ◌<◌, ◌≡◌, ◌≢◌, refl, sym, true, false, some, List, [], ◌∷◌, arith, inl, inr,
  Bool-cases, ap, find-update_first, find-update_first_other, find_passes, subst, leb, ◌↔◌, ◌∙◌,
}
use ivis_backend.Outbox.Row.{DeliveryStatus, TajdeedOutbox}
use ivis_backend.Outbox.Dao.{
  Table, has_id, find_by_id, patch, claimed, claim_for_send, find_due_for_send,
}
use ivis_backend.Outbox.Backoff.{next_retry_delay_ms}
use ivis_backend.Outbox.Schedule.{next_retry_delay_ms_bounds}
use ivis_backend.Outbox.Provider.{Provider, PushOutcome, push_event, is_retryable, is_delivered}
use ivis_backend.Outbox.Dispatcher.{
  Config, is_off, drain_batch, max_attempts, settle, send, send_all, drain, envelope_of,
}
use ivis_backend.Outbox.LiveUnique.{send-cases}

-- What no operation changes of a row.
pub record SameEvent (r q : TajdeedOutbox) : Type 0 where
  pub same_id : q.id ≡ r.id
  pub same_transaction : q.transaction_id ≡ r.transaction_id
  pub same_type : q.event_type ≡ r.event_type
  pub same_branch : q.branch_code ≡ r.branch_code
  pub same_payload : q.payload ≡ r.payload
  pub same_job : q.job_id ≡ r.job_id
  pub same_centre : q.centre_id ≡ r.centre_id
  pub same_line : q.line_id ≡ r.line_id
  pub same_age : q.created_at ≡ r.created_at

some_eq : {r q : TajdeedOutbox} → some r ≡ some q → r ≡ q
some_eq e = cc

-- The steps of `delivery_status` that a drain makes.
infix 40 ◌⟶◌
pub data ◌⟶◌ : DeliveryStatus → DeliveryStatus → Type 0 where
  rest : {s : DeliveryStatus} → s ⟶ s
  accept : DeliveryStatus.pending ⟶ DeliveryStatus.accepted
  abandon : DeliveryStatus.pending ⟶ DeliveryStatus.abandoned

⟶_trans : {s t u : DeliveryStatus} → s ⟶ t → t ⟶ u → s ⟶ u
⟶_trans rest k = k
⟶_trans accept rest = accept
⟶_trans abandon rest = abandon

find-patch_other :
    (i id : ℕ) (f : TajdeedOutbox → TajdeedOutbox) (t : Table)
    → ((r : TajdeedOutbox) → (f r).id ≡ r.id)
    → i ≢ id
    → find_by_id i (patch id f t) ≡ find_by_id i t
find-patch_other i id f t same ne =
    find-update_first_other (has_id i) (has_id id) f (λ r h. ground arith)
      (λ r h. ground (arith, same r)) t

pub settle-SameEvent :
    (now : ℕ) (row : TajdeedOutbox) (o : PushOutcome) (r : TajdeedOutbox)
    → SameEvent r (settle now row o r)
unfolding settle
settle-SameEvent now row (PushOutcome.delivered d x) r = ground arith
settle-SameEvent now row (PushOutcome.refused true e x) r = ground arith
settle-SameEvent now row (PushOutcome.refused false e x) r = ground arith

settle-SameEvent' :
    (now at : ℕ) (row : TajdeedOutbox) (o : PushOutcome) (r : TajdeedOutbox)
    → SameEvent r (settle now row o (claimed at r))
settle-SameEvent' now at row o r = ground (arith, settle-SameEvent now row o (claimed at r))

send_claims :
    (config : Config) (provider : Provider) (now : ℕ) (row r : TajdeedOutbox) (t : Table)
    → find_by_id row.id t ≡ some r
    → r.delivery_status ≡ DeliveryStatus.pending
    → let at = now + next_retry_delay_ms (row.attempt_count + 1) in
      let outcome = push_event config.has_key provider (envelope_of now row) in
      send config provider now row t
      ≡ patch row.id (settle now row outcome) (patch row.id (claimed at) t)
unfolding send claim_for_send
send_claims config provider now row r t found waiting = rw (found, claim_for_send, waiting)

pub find-send :
    (config : Config) (provider : Provider) (now : ℕ) (row r : TajdeedOutbox) (t : Table)
    → find_by_id row.id t ≡ some r
    → r.delivery_status ≡ DeliveryStatus.pending
    → let at = now + next_retry_delay_ms (row.attempt_count + 1) in
      let outcome = push_event config.has_key provider (envelope_of now row) in
      find_by_id row.id (send config provider now row t)
      ≡ some (settle now row outcome (claimed at r))
find-send config provider now row r t found waiting =
    let at = now + next_retry_delay_ms (row.attempt_count + 1) in
    let outcome = push_event config.has_key provider (envelope_of now row) in
    let hit = find_passes (has_id row.id) t found in
    rw (send_claims config provider now row r t found waiting) (
      find-update_first (has_id row.id) (settle now row outcome) (patch row.id (claimed at) t)
        (find-update_first (has_id row.id) (claimed at) t found hit)
        (rw ((settle-SameEvent now row outcome (claimed at r)).same_id) hit))

-- What one settlement makes of a row that a claim has just taken.
settle_row :
    (now at : ℕ) (row : TajdeedOutbox) (o : PushOutcome)
    → row.delivery_status ≡ DeliveryStatus.pending
    → let q = settle now row o (claimed at row) in
      (q.attempt_count ≡ row.attempt_count + 1)
      × ((q.delivery_status ≡ DeliveryStatus.accepted) ↔ (is_delivered o ≡ true))
      × ((q.delivery_status ≡ DeliveryStatus.pending)
          ↔ ((is_retryable o ≡ true) × (row.attempt_count + 1 < max_attempts)))
      × (q.delivery_status ≡ DeliveryStatus.pending → q.next_attempt_at ≡ some at)
unfolding settle
settle_row now at row (PushOutcome.delivered d x) h = ground arith
settle_row now at row (PushOutcome.refused true e x) h = ground arith
settle_row now at row (PushOutcome.refused false e x) h = ground arith

-- What `send` makes of a Pending row that is as it was read: it counts the attempt and changes
-- nothing of the event itself; the row becomes Accepted exactly if the push was delivered; it stays
-- Pending exactly if the refusal is retryable and the attempts are still below the maximum, and is
-- then due again after 10 seconds to 5 minutes.
pub send-row :
    (config : Config) (provider : Provider) (now : ℕ) (row : TajdeedOutbox) (t : Table)
    → find_by_id row.id t ≡ some row
    → row.delivery_status ≡ DeliveryStatus.pending
    → let outcome = push_event config.has_key provider (envelope_of now row) in
      (q : TajdeedOutbox) × (find_by_id row.id (send config provider now row t) ≡ some q)
      × SameEvent row q
      × (q.attempt_count ≡ row.attempt_count + 1)
      × ((q.delivery_status ≡ DeliveryStatus.accepted) ↔ (is_delivered outcome ≡ true))
      × ((q.delivery_status ≡ DeliveryStatus.pending)
          ↔ ((is_retryable outcome ≡ true) × (row.attempt_count + 1 < max_attempts)))
      × (q.delivery_status ≡ DeliveryStatus.pending
          → (at : ℕ) × (q.next_attempt_at ≡ some at) × (now + 10000 ≤ at) × (at ≤ now + 300000))
send-row config provider now row t found waiting =
    let at = now + next_retry_delay_ms (row.attempt_count + 1) in
    let outcome = push_event config.has_key provider (envelope_of now row) in
    let q = settle now row outcome (claimed at row) in
    let (counted, accepts, stays, delays) = settle_row now at row outcome waiting in
    let same = settle-SameEvent now row outcome (claimed at row) in
    let bounds = next_retry_delay_ms_bounds row.attempt_count in
    (
      q,
      find-send config provider now row row t found waiting,
      ground arith,
      counted,
      accepts,
      stays,
      λ p. (at, delays p, rw add-one (omega arith), rw add-one (omega arith)),
    )

pub send-others :
    (config : Config) (provider : Provider) (now i : ℕ) (row : TajdeedOutbox) (t : Table)
    → i ≢ row.id
    → find_by_id i (send config provider now row t) ≡ find_by_id i t
send-others config provider now i row t ne =
    let at = now + next_retry_delay_ms (row.attempt_count + 1) in
    let outcome = push_event config.has_key provider (envelope_of now row) in
    elim (send-cases config provider now row t) [
      | inl same ↦ rw same
      | inr (r, found, waiting, won) ↦ rw won (
          find-patch_other i row.id (settle now row outcome) (patch row.id (claimed at) t)
            (λ q. (settle-SameEvent now row outcome q).same_id) ne
          ∙ find-patch_other i row.id (claimed at) t (λ q. refl) ne)
    ]

from_pending :
    {s u : DeliveryStatus} → s ≡ DeliveryStatus.pending → DeliveryStatus.pending ⟶ u → s ⟶ u
from_pending {u} h step = subst (λ s. s ⟶ u) (sym h) step

settle_step :
    (now : ℕ) (row : TajdeedOutbox) (o : PushOutcome) (r : TajdeedOutbox)
    → r.delivery_status ≡ DeliveryStatus.pending
    → DeliveryStatus.pending ⟶ (settle now row o r).delivery_status
unfolding settle
settle_step now row (PushOutcome.delivered d x) r h = accept
settle_step now row (PushOutcome.refused true e x) r h =
    elim (Bool-cases (leb max_attempts (row.attempt_count + 1))) [
      | inl last ↦ rw last abandon
      | inr more ↦ rw (more, h) rest
    ]
settle_step now row (PushOutcome.refused false e x) r h = abandon

-- How a row stands to what it was before a drain.
pub record Drained (r q : TajdeedOutbox) : Type 0 where
  pub event : SameEvent r q
  pub step : r.delivery_status ⟶ q.delivery_status
  pub settled : r.delivery_status ≢ DeliveryStatus.pending → q ≡ r

Drained-refl : (r : TajdeedOutbox) → Drained r r
Drained-refl r = record { event = ground arith; step = rest; settled = λ h. refl }

Drained-trans : {r q s : TajdeedOutbox} → Drained r q → Drained q s → Drained r s
Drained-trans d e = record {
  event = ground (arith, d.event, e.event);
  step = ⟶_trans d.step e.step;
  settled = λ h. e.settled (rw (d.settled h) h) ∙ d.settled h;
}

send-Drained :
    (config : Config) (provider : Provider) (now i : ℕ) (row r : TajdeedOutbox) (t : Table)
    → find_by_id i t ≡ some r
    → (q : TajdeedOutbox) × (find_by_id i (send config provider now row t) ≡ some q) × Drained r q
send-Drained config provider now i row r t found =
    let at = now + next_retry_delay_ms (row.attempt_count + 1) in
    let outcome = push_event config.has_key provider (envelope_of now row) in
    elim (ℕ_discrete i row.id) [
      | no ne ↦ (r, send-others config provider now i row t ne ∙ found, Drained-refl r)
      | yes same ↦ elim (send-cases config provider now row t) [
        | inl unchanged ↦ (r, rw unchanged found, Drained-refl r)
        | inr (r', found', waiting, won) ↦
            let same_row : r' ≡ r =
              some_eq (sym found' ∙ ap (λ k. find_by_id k t) (sym same) ∙ found) in
            let q = settle now row outcome (claimed at r') in
            (
              q,
              rw same (find-send config provider now row r' t found' waiting),
              rw (← same_row) (record {
                event = settle-SameEvent' now at row outcome r';
                step = from_pending waiting (settle_step now row outcome (claimed at r') waiting);
                settled = λ h. absurd (h waiting);
              }),
            )
      ]
    ]

send_all-Drained :
    (config : Config) (provider : Provider) (now i : ℕ) (rows : List TajdeedOutbox)
    (r : TajdeedOutbox) (t : Table)
    → find_by_id i t ≡ some r
    → (q : TajdeedOutbox) × (find_by_id i (send_all config provider now rows t) ≡ some q)
      × Drained r q
unfolding send_all
send_all-Drained config provider now i [] r t found = (r, found, Drained-refl r)
send_all-Drained config provider now i (row ∷ rows) r t found =
    let (q, found', d) = send-Drained config provider now i row r t found in
    let (s, found'', e) =
      send_all-Drained config provider now i rows q (send config provider now row t) found' in
    (s, found'', Drained-trans d e)

-- A drain removes no row and changes no event; a row that is not Pending it leaves exactly as it is,
-- and a Pending row it leaves Pending, Accepted or Abandoned.
pub drain-Drained :
    (config : Config) (provider : Provider) (now i : ℕ) (r : TajdeedOutbox) (t : Table)
    → find_by_id i t ≡ some r
    → (q : TajdeedOutbox) × (find_by_id i (drain config provider now t) ≡ some q) × Drained r q
unfolding drain
drain-Drained config provider now i r t found = elim (Bool-cases (is_off config)) [
  | inl off ↦ (r, rw off found, Drained-refl r)
  | inr on ↦
      let (q, found', d) =
        send_all-Drained config provider now i (find_due_for_send now drain_batch t) r t found in
      (q, rw on found', d)
]
