-- ===== src/Outbox/Provider.antt =====
-- The client of the provider (appointment-api-client.service.ts): what a reply means. The provider
-- itself is the parameter `Provider`.
use Prim.Native.String.{String}
use ivis_backend.Base.{
  ℕ, Bool, true, false, ◌&&◌, ◌||◌, Option, none, some, List, [], ◌∷◌, ◌++◌, leb, ◌==◌, take, Text,
  text, text_eq, decimal, if◌then◌else◌,
}
use ivis_backend.Outbox.Row.{EventType, EventStatus}

pub record TajdeedEventEnvelope : Type 0 where
  pub event_type : EventType
  pub transaction_id : ℕ
  pub branch_code : Text
  pub timestamp : ℕ
  pub payload : Text

-- The JSON body of a reply: its `status` and `message`, if present, and the body as it came.
pub record Body : Type 0 where
  pub status : Option Text
  pub message : Option Text
  pub raw : Text

-- `no_reply` is a timeout or a failed connection, with the error's message.
pub data Reply : Type 0 where
  no_reply : Text → Reply
  http : ℕ → Option Body → Reply

pub data PushOutcome : Type 0 where
  delivered : (duplicate : Bool) → (response : Option Text) → PushOutcome
  refused : (retryable : Bool) → (reason : Text) → (response : Option Text) → PushOutcome

pub record ReconcileEntry : Type 0 where
  pub transaction_id : ℕ
  pub event_status : EventStatus
  pub raw : Text

pub record EventStatusResult : Type 0 where
  pub error_message : Option Text
  pub raw : Text

-- The other side of each call; `none` is the client's null on any failure.
pub record Provider : Type 0 where
  pub events : TajdeedEventEnvelope → Reply
  pub fetch_event_status : ℕ → Option EventStatusResult
  pub post_reconcile : List ℕ → Option (List ReconcileEntry)

abbrev pub reconcile_batch_limit : ℕ
reconcile_batch_limit = 100

-- `code === wanted`, where a body may be absent or carry no code.
abbrev pub code_of : Option Body → Option Text
code_of none = none
code_of (some b) = b.status

abbrev pub code_is : String → Option Text → Bool
code_is wanted none = false
code_is wanted (some code) = text_eq code (text wanted)

abbrev raw_of : Option Body → Option Text
raw_of none = none
raw_of (some b) = some b.raw

abbrev message_of : ℕ → Option Body → Text
message_of status none = text "HTTP " ++ decimal status
message_of status (some b) = elim b.message [ none ↦ text "HTTP " ++ decimal status | some m ↦ m ]

abbrev code_or_status : ℕ → Option Text → Text
code_or_status status none = decimal status
code_or_status status (some code) = code

-- `res.ok`
abbrev pub is_ok : ℕ → Bool
is_ok status = leb 200 status && leb status 299

abbrev pub is_transient : ℕ → Bool
is_transient status = status == 429 || leb 500 status

unfoldable pub push_outcome : Reply → PushOutcome
push_outcome (Reply.no_reply message) = PushOutcome.refused true message none
push_outcome (Reply.http status body) =
    let reason = code_or_status status (code_of body) ++ (text ": " ++ message_of status body) in
    if is_ok status && code_is "E0000" (code_of body)
    then PushOutcome.delivered false (raw_of body)
    else if code_is "E0007" (code_of body)
    then PushOutcome.delivered true (raw_of body)
    else if is_transient status
    then PushOutcome.refused true reason (raw_of body)
    else PushOutcome.refused false reason (raw_of body)

abbrev pub is_retryable : PushOutcome → Bool
is_retryable (PushOutcome.delivered duplicate response) = false
is_retryable (PushOutcome.refused retryable reason response) = retryable

abbrev pub is_delivered : PushOutcome → Bool
is_delivered (PushOutcome.delivered duplicate response) = true
is_delivered (PushOutcome.refused retryable reason response) = false

-- `has_key` says whether `APPOINTMENT_API_KEY` is set.
unfoldable pub push_event : Bool → Provider → TajdeedEventEnvelope → PushOutcome
unfolding push_outcome
push_event false provider envelope =
    PushOutcome.refused false (text "APPOINTMENT_API_KEY is not configured") none
push_event true provider envelope = push_outcome (provider.events envelope)

unfoldable pub reconcile : Provider → List ℕ → Option (List ReconcileEntry)
reconcile provider [] = some []
reconcile provider (id ∷ ids) = provider.post_reconcile (take reconcile_batch_limit (id ∷ ids))
