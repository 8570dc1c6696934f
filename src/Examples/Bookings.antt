-- ===== src/Examples/Bookings.antt =====
-- The ingest of a booking and the arrival of its vehicle on concrete data.
use ivis_backend.Base.{
  length, ℕ, ◌≤◌, true, false, Option, none, some, List, [], ◌∷◌, tally, trim, is_space, to_upper,
  upper_code, Text, text, ◌≡◌, refl, arith,
}
use ivis_backend.Store.Entities.{
  AppointmentStatus, RopVerificationStatus, PaymentStatus, Appointment, Payment, ProviderBooking,
  AppointmentBooking, Db,
}
use ivis_backend.Submission.Filing.{Centre, Line}
use ivis_backend.Ingest.Dao.{is_open_for}
use ivis_backend.Ingest.Bookings.{Formats, to_instant}
use ivis_backend.Ingest.Promote.{promote, promote_pending}
use ivis_backend.Ingest.Reconcile.{appointment_by_id, sync_one, sync_promoted, is_queued}
use ivis_backend.Ingest.OneOpen.{HasOneOpen}
use ivis_backend.Ingest.Queue.{IsTidy, promote_pending-HasOneOpen}
use ivis_backend.Ingest.Visits.{AllFollow}
use ivis_backend.Ingest.Followed.{sync_promoted-AllFollow}
use ivis_backend.Ingest.Reinstated.{
  has_payment_id, IsPaidFor, with_withdrawn, IsWaiting, sync_one-reinstated,
}
use ivis_backend.Ingest.Requeued.{has_cancelled_payment, sync_one-requeued}
use ivis_backend.Ingest.Untouched.{Untouched}
use ivis_backend.Ingest.Promoted.{Promoted, promote-Promoted}
use ivis_backend.Ingest.Blocked.{SameQueue, promote-blocked}
use ivis_backend.Arrival.Lanes.{Capture, resolve_auto_assignment}
use ivis_backend.Arrival.Unattended.{auto_convert, note_blocked, convert_found, settle_conversion}
use ivis_backend.Jobs.Conversion.{
  create_from_appointment, convertible, is_expired, resolve_vehicle_record, resolve_assignment,
  link_existing_payment_to_job,
}
use ivis_backend.Jobs.Service.{create, create_body, validate_job_references}
use ivis_backend.Arrival.Pairing.{Evidence, attach_capture}
use ivis_backend.Arrival.Paired.{Pairs, HasDistinctVisits, attach_capture-Pairs}
use ivis_backend.Arrival.Forgotten.{IsUnnoted, sync_one-note_blocked}
use ivis_backend.Examples.Shop.{owner, booking, shop, payment_of}

-- One instant, one day and one fee.
abbrev fixed : Formats
fixed = record {
  parse_date = λ _. 86400000;
  oman_date = λ _. text "1970-01-02";
  amount_of = λ _. 50000;
}

abbrev centre : Centre
centre = record { id = 6; provider_branch_code = some (text "BR1") }

abbrev payload : ProviderBooking
payload = record {
  booking_id = text "B7";
  status = text "CONFIRMED";
  appointment_date = text "1970-01-02";
  appointment_time = some (text "04:00");
  assigned_lane = none;
  is_reinspection = false;
  payment_status = some (text "PAID");
  fee_amount = some (text "5.000");
  payment_method = some (text "ONLINE_CARD");
  payment_reference = some (text "PAY1");
  plate_number = text "77 B";
  plate_type = text "Private";
  make = none;
  model = none;
  color = none;
  chassis_number = some (text "CH7");
  vin = none;
  customer_name = some (text "Aisha");
  customer_phone = some (text "+96891234567");
  driver_name = none;
  driver_phone = none;
}

abbrev row : AppointmentBooking
row = record {
  id = 50;
  booking_id = text "B7";
  centre_id = 6;
  provider_branch_code = text "BR1";
  booking_date = text "1970-01-02";
  booking_time = some (text "04:00");
  plate_number = text "77 B";
  plate_type = text "Private";
  provider_status = text "CONFIRMED";
  payload = payload;
  appointment_id = none;
  is_withdrawn = false;
  first_seen_at = 80000000;
  last_seen_at = 80000000;
}

abbrev mirror : Db
mirror = record shop { bookings = row ∷ [] }

mirror-HasOneOpen : HasOneOpen 86400000 mirror
mirror-HasOneOpen = record {
  one_open = λ plate. ground arith;
  old_links = (refl, tt);
  old_records = (refl, tt);
  distinct = λ id. ground arith;
}

row-IsTidy : IsTidy row
unfolding trim is_space
row-IsTidy = (refl, λ e. cc)

promote-Promoted_example : Promoted fixed row mirror (promote fixed 86400000 centre row mirror).1
unfolding is_open_for to_upper upper_code
promote-Promoted_example =
    promote-Promoted fixed 86400000 centre row mirror row-IsTidy mirror-HasOneOpen refl refl refl

promote_pending-HasOneOpen_example :
    HasOneOpen 86400000 (promote_pending fixed 86400000 centre mirror)
promote_pending-HasOneOpen_example =
    promote_pending-HasOneOpen fixed 86400000 centre mirror (row-IsTidy, tt) mirror-HasOneOpen

-- The appointment of the booking was deleted.
abbrev emptied : Db
emptied = record mirror {
  appointments = record booking { provider_booking_id = some (text "B7"); is_deleted = true } ∷ [];
}

emptied-HasOneOpen : HasOneOpen 86400000 emptied
emptied-HasOneOpen = record {
  one_open = λ plate. ground arith;
  old_links = (refl, tt);
  old_records = (refl, tt);
  distinct = λ id. ground arith;
}

promote-blocked_example : SameQueue emptied (promote fixed 86400000 centre row emptied).1
promote-blocked_example =
    promote-blocked fixed 86400000 centre row emptied row-IsTidy emptied-HasOneOpen refl refl

-- A placeholder with its payment.
abbrev placeholder : Appointment
placeholder = record booking { anpr_capture = none }

abbrev paid : Payment
paid = record (payment_of 50000 false) { provider_payment_reference = some (text "PAY1") }

abbrev promoted_row : AppointmentBooking
promoted_row = record row { appointment_id = some 3 }

abbrev expected_visit : Db
expected_visit = record shop {
  appointments = placeholder ∷ [];
  bookings = promoted_row ∷ [];
  payments = paid ∷ [];
}

sync_promoted-AllFollow_example :
    AllFollow expected_visit.appointments
      (sync_promoted fixed 6 (text "1970-01-02") expected_visit).appointments
    × Untouched expected_visit (sync_promoted fixed 6 (text "1970-01-02") expected_visit)
sync_promoted-AllFollow_example = sync_promoted-AllFollow fixed 6 (text "1970-01-02") expected_visit

expected_visit-IsWaiting :
    IsWaiting (to_instant fixed promoted_row.booking_date promoted_row.booking_time) placeholder
unfolding to_instant
expected_visit-IsWaiting = record {
  live = refl;
  queued = refl;
  absent = refl;
  unnoted = refl;
  at_slot = refl;
}

paid-IsPaidFor : IsPaidFor promoted_row expected_visit
paid-IsPaidFor p e = ground arith

one_payment : (n : ℕ) → tally (has_payment_id n) (paid ∷ []) ≤ 1
one_payment n = ground arith

sync_one-reinstated_example :
    sync_one fixed
      (with_withdrawn false promoted_row)
      (sync_one fixed (with_withdrawn true promoted_row) expected_visit)
    ≡ expected_visit
sync_one-reinstated_example =
    sync_one-reinstated fixed promoted_row 3 placeholder expected_visit refl refl
      expected_visit-IsWaiting one_payment paid-IsPaidFor

-- Visit and payment were cancelled at the counter.
abbrev called_off : Db
called_off = record expected_visit {
  appointments = record placeholder { status = AppointmentStatus.cancelled } ∷ [];
  payments = record paid { status = PaymentStatus.cancelled } ∷ [];
}

one_cancelled_payment : (n : ℕ) → tally (has_payment_id n) called_off.payments ≤ 1
one_cancelled_payment n = ground arith

sync_one-requeued_example :
    (b : Appointment) × (appointment_by_id 3 (sync_one fixed promoted_row called_off) ≡ some b)
    × (is_queued b.status ≡ true)
    × (has_cancelled_payment promoted_row (sync_one fixed promoted_row called_off) ≡ false)
sync_one-requeued_example =
    sync_one-requeued fixed promoted_row 3
      (record placeholder { status = AppointmentStatus.cancelled }) called_off refl refl refl refl
      refl one_cancelled_payment

abbrev lines : List Line
lines = record { id = 7; provider_lane_id = none; centre_id = some 6 } ∷ []

abbrev arrival : Capture
arrival = record {
  reading = record { id = 4; plate_number = some (text "1234 A"); vehicle_type = none };
  line_id = some 7;
  capture_time = some 86400000;
}

-- The car of a paid online booking has arrived, and its customer names a driver.
abbrev arrived : Db
arrived = record shop {
  appointments =
      record booking {
        provider_booking_id = some (text "B1");
        provider_payment_status = some (text "PAID");
      }
      ∷ [];
  customers =
      record owner {
        driver_name = some (text "Salim");
        driver_phone_number = some (text "91234567");
      }
      ∷ [];
}

abbrev two_jobs : ℕ
two_jobs = 2

-- Its booking is converted.
arrived_converted :
    length (auto_convert (λ _. text "refused") lines 86400000 arrival arrived).jobs ≡ two_jobs
unfolding auto_convert convert_found settle_conversion resolve_auto_assignment
    resolve_vehicle_record resolve_assignment link_existing_payment_to_job create_from_appointment
    create create_body validate_job_references convertible is_expired trim is_space note_blocked
arrived_converted = refl

abbrev evidence : Evidence
evidence = record {
  rop = some RopVerificationStatus.validated;
  vehicle_record = 2;
  customer = none;
}

expected_visit-HasDistinctVisits : HasDistinctVisits expected_visit
expected_visit-HasDistinctVisits id = ground arith

attach_capture-Pairs_example :
    Pairs arrival expected_visit
      (attach_capture 86400000 lines arrival (text "1234 A") evidence expected_visit)
attach_capture-Pairs_example =
    attach_capture-Pairs arrival expected_visit expected_visit-HasDistinctVisits 86400000 lines
      (text "1234 A") evidence

abbrev reason : Option Text
reason = some (text "No free line with an assigned user")

sync_one-note_blocked_example :
    IsUnnoted 3 (sync_one fixed promoted_row (note_blocked placeholder reason expected_visit))
sync_one-note_blocked_example =
    sync_one-note_blocked fixed promoted_row 3 refl refl placeholder reason expected_visit refl refl
