-- ===== src/Ingest/Promote.antt =====
-- `promote` and `promotePending`. An exception ends the promotion of its booking only.
use ivis_backend.Base.{ℕ, false, Option, none, some, List, [], ◌∷◌, Text, text}
use ivis_backend.Store.Entities.{AppointmentStatus, Appointment, AppointmentBooking, Db}
use ivis_backend.Store.Action.{Action, pure, gets, modify, ◌>>=◌, ◌>>◌, generate_snowflake_id}
use ivis_backend.Submission.Filing.{Centre}
use ivis_backend.Ingest.Dao.{
  find_pending_promotion, save_booking, find_by_provider_booking_id, find_open_by_plate,
  next_appointment_id, insert_appointment,
}
use ivis_backend.Ingest.Bookings.{Formats, to_instant}
use ivis_backend.Ingest.Parties.{nonempty, ensure_vehicle_record, ensure_customer, ensure_payment}

abbrev pub new_appointment :
    Formats → ℕ → Centre → AppointmentBooking → Option ℕ → Option ℕ → ℕ → ℕ → Appointment
new_appointment f now centre booking vehicle customer id number = record {
  id = id;
  appointment_id = number;
  booking_type = text "Online";
  provider_booking_id = some booking.booking_id;
  plate_number = some booking.plate_number;
  status = AppointmentStatus.queued;
  appointment_at = some (to_instant f booking.booking_date booking.booking_time);
  customer_id = customer;
  anpr_capture = none;
  rop_status = none;
  vehicle_record_id = vehicle;
  centre_id = some centre.id;
  line_id = none;
  provider_status = some booking.payload.status;
  provider_payment_status = booking.payload.payment_status;
  provider_fee_amount = booking.payload.fee_amount;
  provider_payment_method = booking.payload.payment_method;
  provider_payment_reference = booking.payload.payment_reference;
  is_reinspection = booking.payload.is_reinspection;
  assigned_lane = booking.payload.assigned_lane;
  auto_convert_blocked_reason = none;
  created_at = now;
  is_deleted = false;
}

abbrev pub linked_to : AppointmentBooking → ℕ → AppointmentBooking
linked_to booking appointment = record booking { appointment_id = some appointment }

-- Once vehicle and customer are known.
abbrev pub insert_for :
    Formats → ℕ → Centre → AppointmentBooking → Option ℕ → Option ℕ → Action (Unit {0})
insert_for f now centre booking vehicle customer = do
  id ← generate_snowflake_id
  number ← gets next_appointment_id
  let saved = new_appointment f now centre booking vehicle customer id number
  insert_appointment saved
  modify (save_booking (linked_to booking id))
  ensure_payment f now booking saved customer vehicle

unfoldable pub promote_new : Formats → ℕ → Centre → AppointmentBooking → Action (Unit {0})
promote_new f now centre booking = do
  vehicle ← ensure_vehicle_record booking
  customer ← ensure_customer booking.payload vehicle
  insert_for f now centre booking vehicle customer

-- `if (booking.plate_number)`
abbrev pub open_for_plate : ℕ → Option Text → Db → Option Appointment
open_for_plate now none db = none
open_for_plate now (some plate) db = find_open_by_plate now plate db

-- By what the two queries found.
abbrev pub promote_by :
    Formats
    → ℕ
    → Centre
    → AppointmentBooking
    → Option Appointment
    → Option Appointment
    → Action (Unit {0})
promote_by f now centre booking (some a) open_one = modify (save_booking (linked_to booking a.id))
promote_by f now centre booking none (some a) = pure tt
promote_by f now centre booking none none = promote_new f now centre booking

unfoldable pub promote : Formats → ℕ → Centre → AppointmentBooking → Action (Unit {0})
promote f now centre booking = do
  known ← gets (find_by_provider_booking_id booking.booking_id)
  open_one ← gets (open_for_plate now (nonempty booking.plate_number))
  promote_by f now centre booking known open_one

unfoldable pub promote_all : Formats → ℕ → Centre → List AppointmentBooking → Db → Db
promote_all f now centre [] db = db
promote_all f now centre (b ∷ pending) db =
    promote_all f now centre pending (promote f now centre b db).1

unfoldable pub promote_pending : Formats → ℕ → Centre → Db → Db
unfolding promote_all
promote_pending f now centre db = promote_all f now centre (find_pending_promotion centre.id db) db
