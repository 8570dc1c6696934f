-- ===== src/Outbox/Tests.antt =====
-- The theorems on the outbox, applied to two concrete tables.
use mathlib.Core.List.{Memᴰ}
use ivis_backend.Base.{
  List, ◌≢◌, zero, suc, ◌+◌, ◌*◌, ℕ, ◌≤◌, ◌<◌, ◌≡◌, refl, true, false, Option, none, some, [], ◌∷◌,
  arith, ◌↔◌, text,
}
use ivis_backend.Outbox.Row.{EventType, DeliveryStatus, EventStatus, TajdeedOutbox}
use ivis_backend.Outbox.Dao.{
  Table, find_by_id, find_awaiting_confirmation, has_live_inspection_result,
}
use ivis_backend.Outbox.Backoff.{next_retry_delay_ms}
use ivis_backend.Outbox.Provider.{
  Reply, Provider, ReconcileEntry, push_event, is_retryable, is_delivered,
}
use ivis_backend.Outbox.Service.{EnqueueInput, enqueue, push_now_for_job}
use ivis_backend.Outbox.Dispatcher.{Config, envelope_of, max_attempts, send, drain, apply_status}
use ivis_backend.Outbox.LiveUnique.{HasOneLive, enqueue-HasOneLive}
use ivis_backend.Outbox.LiveRetry.{
  Stands, HasUniqueTransactions, push_now_for_job-HasOneLive, apply_status-HasOneLive,
}
use ivis_backend.Outbox.Delivery.{SameEvent, Drained, send-row, drain-Drained}
use ivis_backend.Outbox.Settled.{drains, IsSteady, last_instant, IsSound, drains-settled}
use ivis_backend.Outbox.Schedule.{next_retry_delay_ms_bounds}
use ivis_backend.Outbox.Anomalies.{unknown_status_stuck}

abbrev result_row : DeliveryStatus → Option EventStatus → TajdeedOutbox
result_row status event_status = record {
  id = 1;
  transaction_id = 71;
  event_type = EventType.inspection_result;
  branch_code = text "SBX";
  payload = text "{}";
  job_id = some 5;
  centre_id = none;
  line_id = none;
  delivery_status = status;
  event_status = event_status;
  attempt_count = 0;
  next_attempt_at = some 1000;
  last_error = none;
  last_push_response = none;
  last_status_response = none;
  accepted_at = none;
  processed_at = none;
  created_at = 1000;
}

abbrev waiting_row : TajdeedOutbox
waiting_row = result_row DeliveryStatus.pending none

abbrev delivered_row : TajdeedOutbox
delivered_row = result_row DeliveryStatus.accepted none

abbrev waiting : Table
waiting = waiting_row ∷ []

abbrev handed_over : Table
handed_over = delivered_row ∷ []

abbrev node : Config
node = record { centre_node = true; push_disabled = false; has_key = true }

-- A provider that is overloaded, and knows nothing.
abbrev busy : Provider
busy = record {
  events = λ envelope. Reply.http 503 none;
  fetch_event_status = λ transaction_id. none;
  post_reconcile = λ ids. none;
}

abbrev input : EnqueueInput
input = record {
  event_type = EventType.inspection_result;
  branch_code = text " sbx";
  payload = text "{}";
  job_id = some 6;
  centre_id = none;
  line_id = none;
}

abbrev entry_of : EventStatus → ReconcileEntry
entry_of status = record { transaction_id = 71; event_status = status; raw = text "{}" }

waiting-HasOneLive : HasOneLive waiting
waiting-HasOneLive job = ground arith

handed_over-HasOneLive : HasOneLive handed_over
handed_over-HasOneLive job = ground arith

handed_over-HasUniqueTransactions : HasUniqueTransactions handed_over
handed_over-HasUniqueTransactions tx = ground arith

delivered_row-Stands : Stands delivered_row handed_over
delivered_row-Stands = record { by_id = refl; by_transaction = refl; is_delivered = refl }

enqueue-HasOneLive_example : HasOneLive (enqueue false 2000 (2, 72) input waiting).1
enqueue-HasOneLive_example =
    enqueue-HasOneLive false 2000 (2, 72) input waiting refl waiting-HasOneLive

push_now_for_job-HasOneLive_example : HasOneLive (push_now_for_job 2000 (2, 72) 5 handed_over).1
push_now_for_job-HasOneLive_example =
    push_now_for_job-HasOneLive 2000 (2, 72) 5 handed_over refl handed_over-HasUniqueTransactions
      handed_over-HasOneLive

apply_status-HasOneLive_example :
    HasOneLive
      (apply_status busy 2000 (2, 72) delivered_row (entry_of EventStatus.failed) handed_over)
apply_status-HasOneLive_example =
    apply_status-HasOneLive busy 2000 (2, 72) delivered_row (entry_of EventStatus.failed)
      handed_over delivered_row-Stands refl handed_over-HasOneLive

send-row_example :
    let outcome = push_event true busy (envelope_of 2000 waiting_row) in
    (q : TajdeedOutbox) × (find_by_id 1 (send node busy 2000 waiting_row waiting) ≡ some q)
    × SameEvent waiting_row q
    × (q.attempt_count ≡ 1)
    × ((q.delivery_status ≡ DeliveryStatus.accepted) ↔ (is_delivered outcome ≡ true))
    × ((q.delivery_status ≡ DeliveryStatus.pending)
        ↔ ((is_retryable outcome ≡ true) × (1 < max_attempts)))
    × (q.delivery_status ≡ DeliveryStatus.pending
        → (at : ℕ) × (q.next_attempt_at ≡ some at) × (12000 ≤ at) × (at ≤ 302000))
send-row_example = send-row node busy 2000 waiting_row waiting refl refl

drain-Drained_example :
    (q : TajdeedOutbox) × (find_by_id 1 (drain node busy 2000 waiting) ≡ some q)
    × Drained waiting_row q
drain-Drained_example = drain-Drained node busy 2000 1 waiting_row waiting refl

next_retry_delay_ms_bounds_example :
    (10000 ≤ next_retry_delay_ms 3)
    × (next_retry_delay_ms 3 ≤ 300000)
    × (next_retry_delay_ms 2 ≤ next_retry_delay_ms 3)
    × (4 ≤ 2 → next_retry_delay_ms 2 ≡ 300000)
next_retry_delay_ms_bounds_example = next_retry_delay_ms_bounds 2

-- A drain every half minute, and the provider always overloaded.
abbrev half_minutes : ℕ → ℕ → List (ℕ × Provider)
half_minutes from zero = []
half_minutes from (suc n) = (from + 30000, busy) ∷ half_minutes (from + 30000) n

half_minutes-IsSteady : (from n : ℕ) → IsSteady from (half_minutes from n)
half_minutes-IsSteady from zero = tt
half_minutes-IsSteady from (suc n) = (omega arith, half_minutes-IsSteady (from + 30000) n)

last_instant-half_minutes :
    (from n : ℕ) → last_instant from (half_minutes from n) ≡ from + n * 30000
last_instant-half_minutes from zero = omega arith
last_instant-half_minutes from (suc n) = omega (arith, last_instant-half_minutes (from + 30000) n)

waiting-IsSound : IsSound waiting
waiting-IsSound = record { distinct = λ id. ground arith; few = ground arith }

drains-settled_example :
    (s : TajdeedOutbox) × (find_by_id 1 (drains node ((2000, busy) ∷ half_minutes 2000 120) waiting)
      ≡ some s)
    × SameEvent waiting_row s
    × (s.delivery_status ≢ DeliveryStatus.pending)
drains-settled_example =
    drains-settled node busy 2000 1 (half_minutes 2000 120) waiting waiting_row refl waiting-IsSound
      refl refl (half_minutes-IsSteady 2000 120) (omega (arith, last_instant-half_minutes 2000 120))

unknown_status_stuck_example :
    let t =
      apply_status busy 2000
        (2, 72)
        delivered_row
        (entry_of (EventStatus.other (text "HELD")))
        handed_over in
    (q : TajdeedOutbox) × (find_by_id 1 t ≡ some q)
    × ((limit : ℕ) → ¬ Memᴰ q (find_awaiting_confirmation limit t))
    × (has_live_inspection_result 5 t ≡ true)
    × ((later : ℕ) (ids : ℕ × ℕ) → (push_now_for_job later ids 5 t).1 ≡ t)
unknown_status_stuck_example =
    unknown_status_stuck busy 2000 (2, 72) delivered_row
      (entry_of (EventStatus.other (text "HELD"))) 5 (text "HELD") handed_over delivered_row-Stands
      refl refl refl (omega arith)
