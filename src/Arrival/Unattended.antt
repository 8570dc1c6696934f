-- ===== src/Arrival/Unattended.antt =====
-- `autoConvertPaidOnlineBooking` and `noteBlocked`. The messages of exceptions are a parameter.
use ivis_backend.Base.{
  ℕ, ◌==◌, Bool, true, false, ◌&&◌, not, Option, none, some, List, ◌++◌, is_some, find, take, Text,
  text, text_eq, if◌then◌else◌,
}
use ivis_backend.Store.Entities.{Customer, Appointment, Job, Db}
use ivis_backend.Store.Action.{Error, Result, ok, err}
use ivis_backend.Store.Dao.{active_customer}
use ivis_backend.Submission.Filing.{Line}
use ivis_backend.Jobs.Conversion.{Assignment, provider_settled, create_from_appointment}
use ivis_backend.Ingest.Parties.{nonblank}
use ivis_backend.Ingest.Reconcile.{patch_appointment, filled_text, is_queued}
use ivis_backend.Arrival.Lanes.{Capture, resolve_auto_assignment}

abbrev pub shows_capture : ℕ → Appointment → Bool
shows_capture id a = elim a.anpr_capture [ none ↦ false | some c ↦ c.id == id ]

-- `findByAnprCaptureId`
abbrev pub find_by_anpr_capture_id : ℕ → Db → Option Appointment
find_by_anpr_capture_id id db = find (λ a. shows_capture id a && not a.is_deleted) db.appointments

abbrev pub same_reason : Option Text → Option Text → Bool
same_reason none none = true
same_reason (some s) (some t) = text_eq s t
same_reason _ _ = false

unfoldable pub note_blocked : Appointment → Option Text → Db → Db
note_blocked a reason db =
    if same_reason a.auto_convert_blocked_reason reason
    then db
    else patch_appointment a.id (λ q. record q { auto_convert_blocked_reason = reason }) db

abbrev pub status_text : Option Text → Text
status_text none = text "unknown"
status_text (some s) = s

abbrev pub unpaid_reason : Appointment → Text
unpaid_reason a =
    text "Payment not settled with the provider ("
    ++ status_text a.provider_payment_status
    ++ text ")"

abbrev pub no_customer_reason : Text
no_customer_reason = text "No customer on the booking — enter customer details"

abbrev pub no_driver_reason : Text
no_driver_reason = text "Driver name and phone are missing — enter them to convert"

abbrev pub no_lane_reason : Text
no_lane_reason = text "No free line with an assigned user — convert manually and pick one"

abbrev pub driver_complete : Option Customer → Bool
driver_complete none = false
driver_complete (some c) =
    is_some (nonblank c.driver_name) && is_some (nonblank c.driver_phone_number)

-- The `catch`: the refusal is noted on the appointment of the capture.
abbrev pub note_refusal : Option Appointment → Text → Db → Db
note_refusal none message db = db
note_refusal (some a) message db = note_blocked a (some (take 255 message)) db

module _ (message_of : Error → Text) (lines : List Line) (now : ℕ) (capture : Capture) where
  unfoldable pub settle_conversion : Appointment → Result Job × Db → Db
  settle_conversion a (ok job, db) = note_blocked a none db
  settle_conversion a (err e, db) =
      note_refusal (find_by_anpr_capture_id capture.reading.id db) (message_of e) db

  abbrev pub with_assignment : Appointment → Db → Option Assignment → Db
  with_assignment a db none = note_blocked a (some no_lane_reason) db
  with_assignment a db (some assignment) =
      settle_conversion a (create_from_appointment a.id a.centre_id (some assignment) now db)

  abbrev pub with_customer : Appointment → Db → Option ℕ → Db
  with_customer a db none = note_blocked a (some no_customer_reason) db
  with_customer a db (some customer) =
      if not (driver_complete (active_customer customer db))
      then note_blocked a (some no_driver_reason) db
      else with_assignment a db (resolve_auto_assignment a capture lines db)

  unfoldable pub convert_found : Option Appointment → Db → Db
  convert_found none db = db
  convert_found (some a) db =
      if not (is_some (filled_text a.provider_booking_id))
      then db
      else if not (is_queued a.status)
      then db
      else if not (provider_settled a)
      then note_blocked a (some (unpaid_reason a)) db
      else with_customer a db a.customer_id

  unfoldable pub auto_convert : Db → Db
  unfolding convert_found settle_conversion
  auto_convert db = convert_found (find_by_anpr_capture_id capture.reading.id db) db
