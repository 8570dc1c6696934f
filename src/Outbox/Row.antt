-- ===== src/Outbox/Row.antt =====
-- The rows of `tajdeed_outbox` (entity/tajdeed-outbox.entity.ts) and their enums
-- (enums/common.enums.ts). Snowflake ids and UUIDs are compared and copied only, so they are
-- numbers; instants are milliseconds since 1970; a jsonb value is its serialised text.
use ivis_backend.Base.{ℕ, Bool, true, false, Option, Text}

pub data EventType : Type 0 where
  inspection_result lane_status : EventType

pub data DeliveryStatus : Type 0 where
  pending accepted processed failed abandoned : DeliveryStatus

-- `event_status` is whatever the provider sent; `other` is a string outside the enum.
pub data EventStatus : Type 0 where
  received processing processed failed not_found : EventStatus
  other : Text → EventStatus

pub record TajdeedOutbox : Type 0 where
  pub id : ℕ
  pub transaction_id : ℕ
  pub event_type : EventType
  pub branch_code : Text
  pub payload : Text
  pub job_id : Option ℕ
  pub centre_id : Option ℕ
  pub line_id : Option ℕ
  pub delivery_status : DeliveryStatus
  pub event_status : Option EventStatus
  pub attempt_count : ℕ
  pub next_attempt_at : Option ℕ
  pub last_error : Option Text
  pub last_push_response : Option Text
  pub last_status_response : Option Text
  pub accepted_at : Option ℕ
  pub processed_at : Option ℕ
  pub created_at : ℕ

abbrev pub is_inspection_result : EventType → Bool
is_inspection_result EventType.inspection_result = true
is_inspection_result EventType.lane_status = false

abbrev pub is_pending : DeliveryStatus → Bool
is_pending DeliveryStatus.pending = true
is_pending _ = false

abbrev pub is_accepted : DeliveryStatus → Bool
is_accepted DeliveryStatus.accepted = true
is_accepted _ = false

abbrev pub is_abandoned : DeliveryStatus → Bool
is_abandoned DeliveryStatus.abandoned = true
is_abandoned _ = false
