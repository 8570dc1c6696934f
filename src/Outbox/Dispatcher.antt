-- ===== src/Outbox/Dispatcher.antt =====
-- tajdeed-events/services/tajdeed-dispatcher.service.ts. The clock is read once per call: `now`.
use ivis_backend.Base.{
  ℕ, zero, suc, ◌+◌, ◌/◌, Bool, true, false, ◌&&◌, ◌||◌, not, Option, none, some, List, [], ◌∷◌,
  ◌++◌, leb, length, ◌==◌, Text, text, decimal, to_lower, includes, or_else, map_set, map_get, keys,
  if◌then◌else◌,
}
use ivis_backend.Outbox.Row.{EventStatus, DeliveryStatus, TajdeedOutbox, is_inspection_result}
use ivis_backend.Outbox.Dao.{
  Table, patch, find_due_for_send, find_awaiting_confirmation, has_live_inspection_result,
  claim_for_send,
}
use ivis_backend.Outbox.Backoff.{next_retry_delay_ms}
use ivis_backend.Outbox.Service.{repush}
use ivis_backend.Outbox.Provider.{
  TajdeedEventEnvelope, PushOutcome, ReconcileEntry, EventStatusResult, Provider,
  reconcile_batch_limit, push_event, reconcile,
}

-- What the environment decides: `isCentreNode()`, `TAJDEED_PUSH_DISABLED` and the API key.
pub record Config : Type 0 where
  pub centre_node : Bool
  pub push_disabled : Bool
  pub has_key : Bool

abbrev pub rejection_retry_delay_ms : ℕ
rejection_retry_delay_ms = 1800000

abbrev pub drain_batch : ℕ
drain_batch = 20

abbrev pub max_attempts : ℕ
max_attempts = 12

abbrev pub envelope_of : ℕ → TajdeedOutbox → TajdeedEventEnvelope
envelope_of now row = record {
  event_type = row.event_type;
  transaction_id = row.transaction_id;
  branch_code = row.branch_code;
  timestamp = now;
  payload = row.payload;
}

-- The columns that each outcome of a send sets. A reply with no body keeps the last one.
abbrev pub mark_accepted : ℕ → Option Text → TajdeedOutbox → TajdeedOutbox
mark_accepted now response q = record q {
  delivery_status = DeliveryStatus.accepted;
  accepted_at = some now;
  next_attempt_at = none;
  last_error = none;
  last_push_response = or_else response q.last_push_response;
}

abbrev pub mark_abandoned : Text → Option Text → TajdeedOutbox → TajdeedOutbox
mark_abandoned error response q = record q {
  delivery_status = DeliveryStatus.abandoned;
  next_attempt_at = none;
  last_error = some error;
  last_push_response = or_else response q.last_push_response;
}

abbrev pub mark_retrying : Text → Option Text → TajdeedOutbox → TajdeedOutbox
mark_retrying error response q = record q {
  last_error = some error;
  last_push_response = or_else response q.last_push_response;
}

gave_up : ℕ → Text → Text
gave_up attempts reason =
    text "Gave up after " ++ (decimal attempts ++ (text " attempts. Last error: " ++ reason))

-- What `send` writes once the provider has answered; `row` is the row as it was read.
unfoldable pub settle : ℕ → TajdeedOutbox → PushOutcome → TajdeedOutbox → TajdeedOutbox
unfolding gave_up
settle now row (PushOutcome.delivered duplicate response) q = mark_accepted now response q
settle now row (PushOutcome.refused false reason response) q = mark_abandoned reason response q
settle now row (PushOutcome.refused true reason response) q =
    if leb max_attempts (row.attempt_count + 1)
    then mark_abandoned (gave_up (row.attempt_count + 1) reason) response q
    else mark_retrying reason response q

unfoldable pub send : Config → Provider → ℕ → TajdeedOutbox → Table → Table
unfolding settle
send config provider now row t =
    let (claimed, t') =
      claim_for_send row.id (now + next_retry_delay_ms (row.attempt_count + 1)) t in
    if claimed
    then patch row.id (settle now row (push_event config.has_key provider (envelope_of now row))) t'
    else t'

unfoldable pub send_all : Config → Provider → ℕ → List TajdeedOutbox → Table → Table
send_all config provider now [] t = t
send_all config provider now (row ∷ rows) t =
    send_all config provider now rows (send config provider now row t)

abbrev pub is_off : Config → Bool
is_off config = not config.centre_node || config.push_disabled

unfoldable pub drain : Config → Provider → ℕ → Table → Table
unfolding send_all
drain config provider now t =
    if is_off config
    then t
    else send_all config provider now (find_due_for_send now drain_batch t) t

unfoldable pub is_recoverable_rejection : Text → Bool
is_recoverable_rejection reason =
    let low = to_lower reason in
    includes low (text "no active booking")
    || (includes low (text "checked_in") || includes low (text "not checked in"))

-- `isSameOmanDay` of utils/util.ts: Asia/Muscat is UTC+4 all year.
abbrev pub oman_day : ℕ → ℕ
oman_day instant = (instant + 14400000) / 86400000

unfoldable pub is_same_oman_day : ℕ → ℕ → Bool
is_same_oman_day a b = oman_day a == oman_day b

-- The early returns of `scheduleRejectionRetry`, in order.
unfoldable pub may_retry : ℕ → TajdeedOutbox → Text → Table → Bool
unfolding is_same_oman_day
may_retry now row reason t = is_inspection_result row.event_type && elim row.job_id [
  | none ↦ false
  | some job ↦
      is_recoverable_rejection reason
      && (is_same_oman_day row.created_at now && not (has_live_inspection_result job t))
]

unfoldable pub schedule_rejection_retry : ℕ → ℕ × ℕ → TajdeedOutbox → Text → Table → Table
unfolding may_retry
schedule_rejection_retry now fresh row reason t =
    if may_retry now row reason t
    then (repush now fresh row.transaction_id (now + rejection_retry_delay_ms) t).1
    else t

abbrev pub mark_processed : ℕ → ReconcileEntry → TajdeedOutbox → TajdeedOutbox
mark_processed now entry q = record q {
  delivery_status = DeliveryStatus.processed;
  event_status = some EventStatus.processed;
  processed_at = some now;
  last_status_response = some entry.raw;
}

abbrev pub mark_failed :
    Text → Option EventStatusResult → ReconcileEntry → TajdeedOutbox → TajdeedOutbox
mark_failed reason detail entry q = record q {
  delivery_status = DeliveryStatus.failed;
  event_status = some EventStatus.failed;
  last_error = some reason;
  last_status_response = elim detail [ none ↦ some entry.raw | some d ↦ some d.raw ];
}

abbrev pub mark_not_found : ℕ → ReconcileEntry → TajdeedOutbox → TajdeedOutbox
mark_not_found now entry q = record q {
  delivery_status = DeliveryStatus.pending;
  event_status = some EventStatus.not_found;
  accepted_at = none;
  next_attempt_at = some now;
  last_status_response = some entry.raw;
}

abbrev pub mark_in_flight : ReconcileEntry → TajdeedOutbox → TajdeedOutbox
mark_in_flight entry q = record q {
  event_status = some entry.event_status;
  last_status_response = some entry.raw;
}

-- `detail?.error_message ?? 'Provider rejected the event'`
abbrev pub rejection_reason : Option EventStatusResult → Text
rejection_reason none = text "Provider rejected the event"
rejection_reason (some d) = elim d.error_message [
  | none ↦ text "Provider rejected the event"
  | some message ↦ message
]

-- `event_status` is a varchar(16): the UPDATE with a longer word fails and writes nothing.
abbrev pub is_storable : EventStatus → Bool
is_storable (EventStatus.other word) = leb (length word) 16
is_storable _ = true

-- `applyStatus` by the status that the provider answered.
unfoldable pub apply_as :
    EventStatus → Provider → ℕ → ℕ × ℕ → TajdeedOutbox → ReconcileEntry → Table → Table
unfolding schedule_rejection_retry
apply_as EventStatus.processed provider now fresh row entry t =
    patch row.id (mark_processed now entry) t
apply_as EventStatus.failed provider now fresh row entry t =
    let detail = provider.fetch_event_status row.transaction_id in
    let reason = rejection_reason detail in
    schedule_rejection_retry now fresh row reason (patch row.id (mark_failed reason detail entry) t)
apply_as EventStatus.not_found provider now fresh row entry t =
    patch row.id (mark_not_found now entry) t
apply_as _ provider now fresh row entry t =
    if is_storable entry.event_status then patch row.id (mark_in_flight entry) t else t

unfoldable pub apply_status : Provider → ℕ → ℕ × ℕ → TajdeedOutbox → ReconcileEntry → Table → Table
unfolding apply_as
apply_status provider now fresh row entry t =
    apply_as entry.event_status provider now fresh row entry t

abbrev pub index_rows : List TajdeedOutbox → List (ℕ × TajdeedOutbox) → List (ℕ × TajdeedOutbox)
index_rows [] m = m
index_rows (r ∷ rs) m = index_rows rs (map_set r.transaction_id r m)

abbrev pub by_transaction : List TajdeedOutbox → List (ℕ × TajdeedOutbox)
by_transaction rows = index_rows rows []

-- The loop of `confirm`, which a failing statement ends; `fresh n` are the new ids of the n-th result.
unfoldable pub apply_all :
    Provider → ℕ → (ℕ → ℕ × ℕ) → ℕ → List (ℕ × TajdeedOutbox) → List ReconcileEntry → Table → Table
apply_all provider now fresh n rows [] t = t
apply_all provider now fresh n rows (entry ∷ entries) t = elim (map_get entry.transaction_id rows) [
  | none ↦ apply_all provider now fresh (suc n) rows entries t
  | some row ↦
      let rest =
        apply_all provider now fresh (suc n) rows entries
          (apply_status provider now (fresh n) row entry t) in
      if is_storable entry.event_status then rest else t
]

unfoldable pub confirm : Config → Provider → ℕ → (ℕ → ℕ × ℕ) → Table → Table
unfolding apply_all
confirm config provider now fresh t =
    if is_off config
    then t
    else let rows = by_transaction (find_awaiting_confirmation reconcile_batch_limit t) in
      elim (reconcile provider (keys rows)) [
        | none ↦ t
        | some entries ↦ apply_all provider now fresh zero rows entries t
      ]
