-- ===== src/Submission/Filing.antt =====
-- What a job tells the provider: `queueInspectionResult` of jobs/services/job.service.ts and
-- `pushLaneChange` of tajdeed-events/services/lane-status.service.ts. Both swallow what they throw.
-- `encode` and `encode_lane` are the texts of the payloads as the outbox stores them.
use ivis_backend.Base.{ℕ, ◌==◌, Bool, Option, none, some, List, [], Text, text_eq, find, or_else}
use ivis_backend.Store.Entities.{Job, VehicleRecord, Db}
use ivis_backend.Store.Dao.{vehicle_record_of}
use ivis_backend.Exchange.Ini.{Ini}
use ivis_backend.Exchange.Watcher.{filled, filled_trim}
use ivis_backend.Outbox.Row.{EventType}
use ivis_backend.Outbox.Dao.{Table}
use ivis_backend.Outbox.Service.{EnqueueInput, enqueue}
use ivis_backend.Submission.Readings.{normalize_plate}
use ivis_backend.Submission.Mapper.{InspectionResultPayload, build_inspection_result_payload}

-- The active rows that the payloads are addressed from, and all bookings, by the columns read here.
pub record BookedAppointment : Type 0 where
  pub id : ℕ
  pub provider_booking_id : Option Text
  pub assigned_lane : Option Text

pub record Centre : Type 0 where
  pub id : ℕ
  pub provider_branch_code : Option Text

pub record Line : Type 0 where
  pub id : ℕ
  pub provider_lane_id : Option Text
  pub centre_id : Option ℕ

pub record Booking : Type 0 where
  pub booking_id : Text
  pub plate_number : Option Text
  pub plate_type : Option Text

pub record Directory : Type 0 where
  pub appointments : List BookedAppointment
  pub centres : List Centre
  pub lines : List Line
  pub bookings : List Booking

infixl 5 ◌>>=◌
-- The early returns of a function without a result.
abbrev pub ◌>>=◌ : {A B : Type 0} → Option A → (A → Option B) → Option B
none >>= k = none
some a >>= k = k a

abbrev pub centre_by : Option ℕ → Directory → Option Centre
centre_by none d = none
centre_by (some id) d = find (λ c. c.id == id) d.centres

abbrev pub line_by : Option ℕ → Directory → Option Line
line_by none d = none
line_by (some id) d = find (λ l. l.id == id) d.lines

abbrev pub appointment_by : Option ℕ → Directory → Option BookedAppointment
appointment_by none d = none
appointment_by (some id) d = find (λ a. a.id == id) d.appointments

abbrev pub booking_by : Text → Directory → Option Booking
booking_by id d = find (λ b. text_eq b.booking_id id) d.bookings

abbrev pub plate_of_booking : Option Booking → Text
plate_of_booking none = []
plate_of_booking (some b) = elim b.plate_number [ none ↦ [] | some plate ↦ plate ]

-- `job.vehicleRecord?.plate_number ?? booking?.plate_number ?? ''`
abbrev pub plate_for : Option VehicleRecord → Option Booking → Text
plate_for none b = plate_of_booking b
plate_for (some v) b = v.plate_number

abbrev pub plate_type_of : Option Booking → Option Text
plate_type_of none = none
plate_type_of (some b) = b.plate_type

abbrev pub lane_of : Option Line → Option Text
lane_of none = none
lane_of (some l) = l.provider_lane_id

-- `payload` of a job whose appointment is `a`, under the booking `booking_id`.
abbrev pub payload_of :
    Directory → Db → Job → BookedAppointment → Text → Ini → InspectionResultPayload
payload_of d db job a booking_id sections = build_inspection_result_payload (record {
  sections = sections;
  overall_result = job.overall_result;
  plate_number = plate_for (vehicle_record_of job.vehicle_record_id db) (booking_by booking_id d);
  plate_type = plate_type_of (booking_by booking_id d);
  lane_id = or_else (lane_of (line_by job.line_id d)) a.assigned_lane;
  job_number = job.job_id;
})

module _ (encode : InspectionResultPayload → Text) where
  abbrev pub addressed : Job → Text → InspectionResultPayload → Option EnqueueInput
  addressed job branch payload = do
    _ ← filled (some payload.plate_number)
    some (record {
      event_type = EventType.inspection_result;
      branch_code = branch;
      payload = encode payload;
      job_id = some job.id;
      centre_id = job.centre_id;
      line_id = job.line_id;
    })

  -- The event that a submission queues, `none` at each early return.
  unfoldable pub result_event : Directory → Db → Job → Option EnqueueInput
  result_event d db job = do
    a ← appointment_by job.appointment_id d
    booking_id ← filled_trim a.provider_booking_id
    sections ← job.test_results
    centre ← centre_by job.centre_id d
    branch ← filled_trim centre.provider_branch_code
    addressed job branch (payload_of d db job a booking_id sections)

  unfoldable pub queue_inspection_result : Bool → ℕ → ℕ × ℕ → Directory → Db → Job → Table → Table
  unfolding result_event
  queue_inspection_result production now fresh d db job t = elim (result_event d db job) [
    | none ↦ t
    | some input ↦ (enqueue production now fresh input t).1
  ]

pub data LaneOccupancy : Type 0 where
  occupied idle : LaneOccupancy

pub record LaneEntry : Type 0 where
  pub lane_id : Text
  pub status : LaneOccupancy
  pub plate_number : Option Text
  pub started_at : Option ℕ
  pub cleared_at : Option ℕ

abbrev pub started_or : ℕ → Option ℕ → ℕ
started_or now none = now
started_or now (some at) = at

abbrev pub plate_filled : Option VehicleRecord → Option Text
plate_filled none = none
plate_filled (some v) = elim (filled (some v.plate_number)) [
  | none ↦ none
  | some plate ↦ some (normalize_plate plate)
]

abbrev pub lane_entry : ℕ → Db → Job → Text → LaneOccupancy → LaneEntry
lane_entry now db job lane LaneOccupancy.occupied = record {
  lane_id = lane;
  status = LaneOccupancy.occupied;
  plate_number = plate_filled (vehicle_record_of job.vehicle_record_id db);
  started_at = some (started_or now job.started_at);
  cleared_at = none;
}
lane_entry now db job lane LaneOccupancy.idle = record {
  lane_id = lane;
  status = LaneOccupancy.idle;
  plate_number = none;
  started_at = none;
  cleared_at = some now;
}

module _ (encode_lane : LaneEntry → Text) where
  unfoldable pub lane_event : ℕ → Directory → Db → Job → LaneOccupancy → Option EnqueueInput
  lane_event now d db job status = do
    line ← line_by job.line_id d
    lane ← filled_trim line.provider_lane_id
    centre ← centre_by line.centre_id d
    branch ← filled_trim centre.provider_branch_code
    some (record {
      event_type = EventType.lane_status;
      branch_code = branch;
      payload = encode_lane (lane_entry now db job lane status);
      job_id = some job.id;
      centre_id = line.centre_id;
      line_id = some line.id;
    })

  unfoldable pub push_lane_change :
      Bool → ℕ → ℕ × ℕ → Directory → Db → Job → LaneOccupancy → Table → Table
  unfolding lane_event
  push_lane_change production now fresh d db job status t = elim (lane_event now d db job status) [
    | none ↦ t
    | some input ↦ (enqueue production now fresh input t).1
  ]
