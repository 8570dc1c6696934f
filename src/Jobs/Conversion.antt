-- ===== src/Jobs/Conversion.antt =====
-- `createFromAppointment` of jobs/services/job.service.ts, its guards in the order of the code, and
-- `appointmentExpiry` of common/utils/util.ts.
use ivis_backend.Base.{
  ℕ, ◌+◌, ◌*◌, ◌==◌, leb, Bool, true, false, ◌&&◌, ◌||◌, not, Option, none, some, [], ◌∷◌, ◌++◌,
  Text, text, trim, text_eq, or_else, any, is_some, update_first,
}
use ivis_backend.Store.Entities.{
  VehicleRecord, AppointmentStatus, RopVerificationStatus, AnprCapture, Appointment, Job, Db,
}
use ivis_backend.Store.Action.{
  Action, Error, Resource, Reason, pure, throw, gets, or_throw, ◌>>=◌, ◌>>◌, throw_if, modify,
  generate_snowflake_id,
}
use ivis_backend.Store.Dao.{
  active_appointment, vehicle_record_of, customer_of, find_settled_by_appointment,
  find_payment_by_appointment, find_by_plate_number, next_vehicle_record_id, update_payment,
}
use ivis_backend.Pricing.{then_by}
use ivis_backend.Outbox.Dispatcher.{oman_day}
use ivis_backend.Jobs.Service.{CreateJobDto, create}

-- `appointmentExpiry`: the end of the appointment's own Oman day has passed.
unfoldable pub is_expired : Appointment → ℕ → Bool
is_expired a now = elim a.status [
  | AppointmentStatus.queued ↦ elim a.appointment_at [
    | none ↦ false
    | some at ↦ leb ((oman_day at + 1) * 86400000) (now + 14400000)
  ]
  | AppointmentStatus.scheduled ↦ false
  | AppointmentStatus.cancelled ↦ false
  | AppointmentStatus.converted ↦ false
]

abbrev pub is_converted : AppointmentStatus → Bool
is_converted AppointmentStatus.converted = true
is_converted _ = false

-- `fetch_status !== VALIDATED`, with the message of each other status.
abbrev pub rop_fault : Option RopVerificationStatus → Option Reason
rop_fault (some RopVerificationStatus.validated) = none
rop_fault (some RopVerificationStatus.failed) = some Reason.rop_failed
rop_fault _ = some Reason.rop_pending

abbrev pub chassis_on_file : Appointment → Db → Text
chassis_on_file a db =
    let of_vehicle =
      then_by (then_by a.vehicle_record_id (λ id. vehicle_record_of id db)) (λ v. v.chassis_no) in
    let of_customer =
      then_by (then_by a.customer_id (λ id. customer_of id db)) (λ c. c.chassis_no) in
    elim (or_else of_vehicle of_customer) [ none ↦ [] | some s ↦ trim s ]

abbrev pub is_empty : Text → Bool
is_empty [] = true
is_empty (c ∷ s) = false

abbrev pub provider_settled : Appointment → Bool
provider_settled a = elim a.provider_payment_status [
  | none ↦ false
  | some s ↦ text_eq s (text "PAID") || text_eq s (text "FREE")
]

-- The payment guard.
abbrev pub is_paid : Appointment → Db → Bool
is_paid a db = is_some (find_settled_by_appointment a.id db) || provider_settled a

abbrev pub throw_reason : Option Reason → Action (Unit {0})
throw_reason none = pure tt
throw_reason (some r) = throw (Error.bad_request r)

-- The guards on the appointment, in the order of the code; what they answer with is the customer and
-- the capture they found.
unfoldable pub convertible : Appointment → ℕ → Action (ℕ × AnprCapture)
convertible a now = do
  throw_if (is_converted a.status) (Error.bad_request Reason.already_converted)
  customer ← or_throw a.customer_id (Error.bad_request Reason.no_customer)
  capture ← or_throw a.anpr_capture (Error.bad_request Reason.not_captured)
  throw_reason (rop_fault a.rop_status)
  throw_if (is_expired a now) (Error.bad_request Reason.expired)
  throw_if (is_empty (← gets (chassis_on_file a))) (Error.bad_request Reason.no_chassis)
  throw_if (not (← gets (is_paid a))) (Error.bad_request Reason.unpaid)
  pure (customer, capture)

abbrev pub new_vehicle_record : ℕ → ℕ → Text → Option Text → VehicleRecord
new_vehicle_record id number plate vehicle_type = record {
  id = id;
  vehicle_record_id = number;
  plate_number = plate;
  vehicle_type = vehicle_type;
  chassis_no = none;
  vehicle_make = none;
  vehicle_model = none;
  vehicle_color = none;
  vehicle_master = none;
  is_deleted = false;
}

abbrev pub save_vehicle_record : Text → Option Text → Action ℕ
save_vehicle_record plate vehicle_type = do
  id ← generate_snowflake_id
  number ← gets next_vehicle_record_id
  modify (λ db. record db {
    vehicle_records = db.vehicle_records ++ new_vehicle_record id number plate vehicle_type ∷ [];
  })
  pure id

-- The vehicle record of the job. An appointment without one has no relation `vehicleRecord` either,
-- so plate and type are those of the capture.
unfoldable pub resolve_vehicle_record : Appointment → AnprCapture → Action ℕ
resolve_vehicle_record a capture = elim a.vehicle_record_id [
  | some id ↦ pure id
  | none ↦ do
    plate ← pure (elim capture.plate_number [ none ↦ [] | some s ↦ trim s ])
    throw_if (is_empty plate) (Error.bad_request Reason.no_plate)
    known ← gets (find_by_plate_number plate)
    elim known [ some v ↦ pure v.id | none ↦ save_vehicle_record plate capture.vehicle_type ]
]

pub record Assignment : Type 0 where
  pub line_id : ℕ
  pub assigned_user_id : ℕ

abbrev pub works_on_line : ℕ → ℕ → Db → Bool
works_on_line user line db = any (λ m. m.0 == line && m.1 == user) db.line_users

-- The line and the user of the job; the user has to be one of the line's.
unfoldable pub resolve_assignment : Appointment → Option Assignment → Action Assignment
resolve_assignment a none = do
  _ ← or_throw a.line_id (Error.bad_request Reason.no_line)
  throw (Error.bad_request Reason.no_user)
resolve_assignment a (some assignment) = do
  throw_if (not (← gets (works_on_line assignment.assigned_user_id assignment.line_id)))
      (Error.bad_request Reason.user_not_on_line)
  pure assignment

-- `appointmentDao.save(merge(appt, { status: CONVERTED }))`
abbrev pub save_converted : Appointment → Action (Unit {0})
save_converted a = modify (λ db. record db {
  appointments =
      update_first (λ q. q.id == a.id) (λ _. record a { status = AppointmentStatus.converted })
        db.appointments;
})

unfoldable pub link_existing_payment_to_job : ℕ → ℕ → Action (Unit {0})
link_existing_payment_to_job appointment job = do
  payment ← gets (find_payment_by_appointment appointment)
  elim payment [
    | none ↦ pure tt
    | some p ↦ elim p.job_id [
      | none ↦ update_payment (record p { job_id = some job })
      | some _ ↦ pure tt
    ]
  ]

abbrev pub job_for : Appointment → Option ℕ → ℕ → AnprCapture → ℕ → Assignment → CreateJobDto
job_for a center customer capture vehicle_record assignment = record {
  job_id = none;
  appointment_id = some a.id;
  status = some (text "Pending");
  customer_id = customer;
  vehicle_record_id = vehicle_record;
  anpr_capture_id = some capture.id;
  centre_id = or_else a.centre_id center;
  line_id = some assignment.line_id;
  assigned_user_id = some assignment.assigned_user_id;
  admin_pc_id = none;
  camera_id = none;
}

abbrev pub finish : Appointment → Job → Action Job
finish a job = do save_converted a; link_existing_payment_to_job a.id job.id; pure job

-- From the vehicle record on.
abbrev pub convert : Appointment → Option ℕ → Option Assignment → ℕ × AnprCapture → Action Job
convert a center assignment evidence = do
  vehicle_record ← resolve_vehicle_record a evidence.1
  chosen ← resolve_assignment a assignment
  job ← create (job_for a center evidence.0 evidence.1 vehicle_record chosen)
  finish a job

-- `center` is the centre of the acting user, `now` the clock.
unfoldable pub create_from_appointment : ℕ → Option ℕ → Option Assignment → ℕ → Action Job
create_from_appointment id center assignment now = do
  a ← or_throw (← gets (active_appointment id)) (Error.not_found Resource.appointment)
  evidence ← convertible a now
  convert a center assignment evidence
