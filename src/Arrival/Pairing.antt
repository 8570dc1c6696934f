-- ===== src/Arrival/Pairing.antt =====
-- `attachCaptureToAppointment` from the search for an appointment on. The vehicle record and the customer
-- that the steps before it found or made are arguments, and so is the status of the ROP row, if any.
use ivis_backend.Base.{
  ℕ, leb, Bool, true, false, ◌&&◌, not, Option, none, some, List, some_is, or_else, is_some, keep,
  sort_by, first, Text, if◌then◌else◌,
}
use ivis_backend.Store.Entities.{RopVerificationStatus, Appointment, VehicleRecord, Db}
use ivis_backend.Submission.Filing.{Line}
use ivis_backend.Outbox.Dispatcher.{is_same_oman_day}
use ivis_backend.Ingest.Dao.{find_last, same_plate, plate_of_record, is_some_text}
use ivis_backend.Ingest.Reconcile.{patch_appointment, is_queued}
use ivis_backend.Arrival.Lanes.{Capture, active_line, centre_of_line}
use ivis_backend.Arrival.Unattended.{find_by_anpr_capture_id}

-- A queued row that no vehicle has arrived against.
abbrev pub awaits : Appointment → Bool
awaits a = not a.is_deleted && (is_queued a.status && not (is_some a.anpr_capture))

abbrev pub is_on_day : ℕ → Option ℕ → Bool
is_on_day now none = false
is_on_day now (some at) = is_same_oman_day at now

-- `if (centreId)`
abbrev pub is_at_centre : Option ℕ → Appointment → Bool
is_at_centre none a = true
is_at_centre (some centre) a = some_is a.centre_id centre

abbrev pub is_online_match : ℕ → Text → Option ℕ → Appointment → Bool
is_online_match now plate centre a =
    awaits a
    && (same_plate plate a.plate_number
        && (is_on_day now a.appointment_at && is_at_centre centre a))

abbrev pub slot_leb : Appointment → Appointment → Bool
slot_leb a b = elim a.appointment_at [
  | none ↦ true
  | some s ↦ elim b.appointment_at [ none ↦ false | some t ↦ leb s t ]
]

abbrev pub find_queued_online_by_plate : ℕ → Text → Option ℕ → Db → Option Appointment
find_queued_online_by_plate now plate centre db =
    first (sort_by slot_leb (keep (is_online_match now plate centre) db.appointments))

abbrev pub is_walk_in_match : ℕ → Text → List VehicleRecord → Appointment → Bool
is_walk_in_match now plate records a =
    awaits a
    && (is_some_text (plate_of_record a.vehicle_record_id records) plate
        && is_same_oman_day a.created_at now)

abbrev pub find_latest_queued_by_plate : ℕ → Text → Db → Option Appointment
find_latest_queued_by_plate now plate db =
    find_last (is_walk_in_match now plate db.vehicle_records) db.appointments

-- What the steps before the search have found.
pub record Evidence : Type 0 where
  pub rop : Option RopVerificationStatus
  pub vehicle_record : ℕ
  pub customer : Option ℕ

abbrev pub matched : Capture → Option ℕ → Evidence → Appointment → Appointment
matched capture centre e a = record a {
  anpr_capture = some capture.reading;
  rop_status = or_else e.rop a.rop_status;
  line_id = or_else a.line_id capture.line_id;
  centre_id = or_else a.centre_id centre;
  vehicle_record_id = some e.vehicle_record;
  customer_id = or_else a.customer_id e.customer;
}

abbrev pub repointed : Evidence → Appointment → Appointment
repointed e a = record a {
  rop_status = or_else e.rop a.rop_status;
  vehicle_record_id = some e.vehicle_record;
  customer_id = or_else a.customer_id e.customer;
}

abbrev pub repoint : Evidence → Option Appointment → Db → Db
repoint e none db = db
repoint e (some a) db = patch_appointment a.id (repointed e) db

abbrev pub attach_to : Capture → Option ℕ → Evidence → Option Appointment → Db → Db
attach_to capture centre e none db = repoint e (find_by_anpr_capture_id capture.reading.id db) db
attach_to capture centre e (some a) db = patch_appointment a.id (matched capture centre e) db

abbrev pub captured_at : ℕ → Capture → ℕ
captured_at now capture = elim capture.capture_time [ none ↦ now | some at ↦ at ]

abbrev pub match_for : ℕ → Text → Option ℕ → Db → Option Appointment
match_for now plate centre db =
    or_else (find_queued_online_by_plate now plate centre db)
      (find_latest_queued_by_plate now plate db)

unfoldable pub attach_capture : ℕ → List Line → Capture → Text → Evidence → Db → Db
attach_capture now lines capture plate e db =
    let centre = centre_of_line (active_line capture.line_id lines) in
    if is_same_oman_day (captured_at now capture) now
    then attach_to capture centre e (match_for now plate centre db) db
    else db
