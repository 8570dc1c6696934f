-- ===== src/Outbox/Service.antt =====
-- tajdeed-events/services/tajdeed-outbox.service.ts. `fresh` is the pair of a new snowflake id and a
-- new UUID, `now` the instant of the call, `production` the answer of `isProduction()`.
use ivis_backend.Base.{ℕ, Bool, Option, none, some, Text, trim, to_upper, if◌then◌else◌}
use ivis_backend.Outbox.Row.{EventType, DeliveryStatus, TajdeedOutbox, is_inspection_result}
use ivis_backend.Outbox.Dao.{
  Table, save, has_live_inspection_result, find_latest_inspection_result_by_job_id,
  find_by_transaction_id, find_by_job_and_type,
}
use ivis_backend.Outbox.Backoff.{is_branch_writable}

pub record EnqueueInput : Type 0 where
  pub event_type : EventType
  pub branch_code : Text
  pub payload : Text
  pub job_id : Option ℕ
  pub centre_id : Option ℕ
  pub line_id : Option ℕ

-- The row that `enqueue` creates; the database's defaults fill the columns it does not name.
abbrev pub queued_row : ℕ → ℕ × ℕ → EnqueueInput → Text → TajdeedOutbox
queued_row now (id, transaction_id) input branch_code = record {
  id = id;
  transaction_id = transaction_id;
  event_type = input.event_type;
  branch_code = branch_code;
  payload = input.payload;
  job_id = input.job_id;
  centre_id = input.centre_id;
  line_id = input.line_id;
  delivery_status = DeliveryStatus.pending;
  event_status = none;
  attempt_count = 0;
  next_attempt_at = some now;
  last_error = none;
  last_push_response = none;
  last_status_response = none;
  accepted_at = none;
  processed_at = none;
  created_at = now;
}

-- The guard of `enqueue`: an event that already stands for this job.
unfoldable pub existing_result : EventType → Option ℕ → Table → Option TajdeedOutbox
existing_result type none t = none
existing_result type (some job) t =
    if is_inspection_result type then find_by_job_and_type job type t else none

unfoldable pub enqueue : Bool → ℕ → ℕ × ℕ → EnqueueInput → Table → Option TajdeedOutbox × Table
unfolding existing_result
enqueue production now fresh input t =
    let branch_code = to_upper (trim input.branch_code) in
    if is_branch_writable production branch_code
    then elim (existing_result input.event_type input.job_id t) [
      | some existing ↦ (some existing, t)
      | none ↦ let row = queued_row now fresh input branch_code in (some row, save row t)
    ]
    else (none, t)

-- The successor of a rejected event: its content under new ids.
abbrev pub successor : ℕ → ℕ × ℕ → ℕ → TajdeedOutbox → TajdeedOutbox
successor now (id, transaction_id) run_at original = record {
  id = id;
  transaction_id = transaction_id;
  event_type = original.event_type;
  branch_code = original.branch_code;
  payload = original.payload;
  job_id = original.job_id;
  centre_id = original.centre_id;
  line_id = original.line_id;
  delivery_status = DeliveryStatus.pending;
  event_status = none;
  attempt_count = 0;
  next_attempt_at = some run_at;
  last_error = none;
  last_push_response = none;
  last_status_response = none;
  accepted_at = none;
  processed_at = none;
  created_at = now;
}

unfoldable pub repush : ℕ → ℕ × ℕ → ℕ → ℕ → Table → Option TajdeedOutbox × Table
repush now fresh transaction_id run_at t = elim (find_by_transaction_id transaction_id t) [
  | none ↦ (none, t)
  | some original ↦ let row = successor now fresh run_at original in (some row, save row t)
]

unfoldable pub push_now_for_job : ℕ → ℕ × ℕ → ℕ → Table → Option TajdeedOutbox × Table
unfolding repush
push_now_for_job now fresh job t = elim (find_latest_inspection_result_by_job_id job t) [
  | none ↦ (none, t)
  | some latest ↦
      if has_live_inspection_result job t
      then (some latest, t)
      else repush now fresh latest.transaction_id now t
]
