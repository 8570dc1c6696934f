-- ===== src/Outbox/Dao.antt =====
-- database/dao/tajdeed-outbox.dao.ts: the table and its queries. `id` is the primary key, so a
-- statement `WHERE id = …` reads and writes the first row with that id, and no other exists.
use ivis_backend.Base.{
  ℕ, ◌+◌, ◌==◌, leb, ltb, Bool, true, false, ◌&&◌, not, Option, none, some, List, [], ◌∷◌, ◌++◌,
  some_is, find, keep, first, update_first, tally, take, sort_by,
}
use ivis_backend.Outbox.Row.{
  EventType, EventStatus, DeliveryStatus, TajdeedOutbox, is_inspection_result, is_pending,
  is_accepted, is_abandoned,
}

abbrev pub Table : Type 0
Table = List TajdeedOutbox

abbrev pub has_id : ℕ → TajdeedOutbox → Bool
has_id id r = r.id == id

abbrev pub find_by_id : ℕ → Table → Option TajdeedOutbox
find_by_id id t = find (has_id id) t

-- `patch`: `changes` gives the columns that the call sets.
abbrev pub patch : ℕ → (TajdeedOutbox → TajdeedOutbox) → Table → Table
patch id changes t = update_first (has_id id) changes t

-- TypeORM's `save` of an entity that carries its key: an update if the key is there, else an insert.
abbrev pub save : TajdeedOutbox → Table → Table
save row t = elim (find_by_id row.id t) [
  | some _ ↦ patch row.id (λ _. row) t
  | none ↦ t ++ row ∷ []
]

abbrev pub is_due : ℕ → Option ℕ → Bool
is_due now none = true
is_due now (some at) = leb at now

abbrev pub created_before : TajdeedOutbox → TajdeedOutbox → Bool
created_before a b = leb a.created_at b.created_at

abbrev pub created_after : TajdeedOutbox → TajdeedOutbox → Bool
created_after a b = leb b.created_at a.created_at

-- `ORDER BY accepted_at ASC` puts nulls last.
abbrev pub instant_before : Option ℕ → Option ℕ → Bool
instant_before none none = true
instant_before none (some b) = false
instant_before (some a) none = true
instant_before (some a) (some b) = leb a b

unfoldable pub find_due_for_send : ℕ → ℕ → Table → Table
unfolding sort_by
find_due_for_send now limit t = take limit (
    sort_by created_before
      (keep (λ r. is_pending r.delivery_status && is_due now r.next_attempt_at) t))

-- The two alternatives of the `where`: not probed yet, or an answer that is not final.
abbrev pub is_unsettled : Option EventStatus → Bool
is_unsettled none = true
is_unsettled (some EventStatus.received) = true
is_unsettled (some EventStatus.processing) = true
is_unsettled (some EventStatus.not_found) = true
is_unsettled (some _) = false

unfoldable pub find_awaiting_confirmation : ℕ → Table → Table
unfolding sort_by
find_awaiting_confirmation limit t = take limit (
    sort_by (λ a b. instant_before a.accepted_at b.accepted_at)
      (keep (λ r. is_accepted r.delivery_status && is_unsettled r.event_status) t))

-- Queued, or delivered and not confirmed: `delivery_status IN (Pending, Accepted)`.
abbrev pub is_live : DeliveryStatus → Bool
is_live DeliveryStatus.pending = true
is_live DeliveryStatus.accepted = true
is_live _ = false

abbrev pub is_live_result : ℕ → TajdeedOutbox → Bool
is_live_result job r =
    some_is r.job_id job && (is_inspection_result r.event_type && is_live r.delivery_status)

unfoldable pub has_live_inspection_result : ℕ → Table → Bool
has_live_inspection_result job t = ltb 0 (tally (is_live_result job) t)

abbrev pub is_result_of : ℕ → TajdeedOutbox → Bool
is_result_of job r = some_is r.job_id job && is_inspection_result r.event_type

unfoldable pub find_latest_inspection_result_by_job_id : ℕ → Table → Option TajdeedOutbox
unfolding sort_by
find_latest_inspection_result_by_job_id job t =
    first (sort_by created_after (keep (is_result_of job) t))

abbrev pub has_transaction : ℕ → TajdeedOutbox → Bool
has_transaction tx r = r.transaction_id == tx

abbrev pub find_by_transaction_id : ℕ → Table → Option TajdeedOutbox
find_by_transaction_id tx t = find (has_transaction tx) t

abbrev same_type : EventType → EventType → Bool
same_type EventType.inspection_result EventType.inspection_result = true
same_type EventType.lane_status EventType.lane_status = true
same_type _ _ = false

abbrev pub blocks_enqueue : ℕ → EventType → TajdeedOutbox → Bool
blocks_enqueue job type r =
    some_is r.job_id job && (same_type r.event_type type && not (is_abandoned r.delivery_status))

unfoldable pub find_by_job_and_type : ℕ → EventType → Table → Option TajdeedOutbox
unfolding sort_by
find_by_job_and_type job type t = first (sort_by created_after (keep (blocks_enqueue job type) t))

-- The columns that a claim sets.
abbrev pub claimed : ℕ → TajdeedOutbox → TajdeedOutbox
claimed next_attempt_at q = record q {
  attempt_count = q.attempt_count + 1;
  next_attempt_at = some next_attempt_at;
}

-- The conditional UPDATE, and whether it affected a row.
unfoldable pub claim_for_send : ℕ → ℕ → Table → Bool × Table
claim_for_send id next_attempt_at t = elim (find_by_id id t) [
  | none ↦ (false, t)
  | some r ↦ elim (is_pending r.delivery_status) [
    | false ↦ (false, t)
    | true ↦ (true, patch id (claimed next_attempt_at) t)
  ]
]
