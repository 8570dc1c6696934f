-- ===== src/Arrival/Eligible.antt =====
-- Which bookings are converted with nobody watching.
use ivis_backend.Base.{
  text, trim, ◌≢◌, ℕ, true, Option, none, some, List, [], is_some, map, Text, ◌≡◌, ◌⊎◌,
}
use ivis_backend.Store.Entities.{Customer, AppointmentStatus, Appointment, Db}
use ivis_backend.Store.Action.{Error}
use ivis_backend.Store.Dao.{active_customer}
use ivis_backend.Submission.Filing.{Line}
use ivis_backend.Jobs.Conversion.{Assignment, create_from_appointment}
use ivis_backend.Ingest.Reconcile.{filled_text}
use ivis_backend.Arrival.Lanes.{Capture}
use ivis_backend.Arrival.Unattended.{find_by_anpr_capture_id, settle_conversion, auto_convert}
use ivis_backend.Arrival.Assigned.{IsAssignable}

-- Everything but the notes of appointments is as it was.
abbrev pub without_notes : Appointment → Appointment
without_notes a = record a { auto_convert_blocked_reason = none }

abbrev pub forget_notes : Db → Db
forget_notes db = record db { appointments = map without_notes db.appointments }

-- The text is there, and not only spaces.
abbrev pub IsGiven : Option Text → Type 0
IsGiven o = (s : Text) × (o ≡ some s) × (trim s ≢ [])

-- The provider counts the booking as paid.
abbrev pub IsSettled : Option Text → Type 0
IsSettled o = (o ≡ some (text "PAID")) ⊎ (o ≡ some (text "FREE"))

-- There is a customer, with the name and the phone number of a driver.
abbrev pub HasDriver : Option Customer → Type 0
HasDriver o = (c : Customer) × (o ≡ some c) × IsGiven c.driver_name × IsGiven c.driver_phone_number

module _ (message_of : Error → Text) (lines : List Line) (now : ℕ) (capture : Capture) where
  -- An online booking whose car has arrived, still queued, settled with the provider, with a customer
  -- whose driver is named, and with a line and a user for the job.
  pub record IsEligible (a : Appointment) (db : Db) : Type 0 where
    pub found : find_by_anpr_capture_id capture.reading.id db ≡ some a
    pub online : is_some (filled_text a.provider_booking_id) ≡ true
    pub queued : a.status ≡ AppointmentStatus.queued
    pub settled : IsSettled a.provider_payment_status
    pub customer : ℕ
    pub of_customer : a.customer_id ≡ some customer
    pub driver : HasDriver (active_customer customer db)
    pub assignment : Assignment
    pub assignable : IsAssignable a capture lines db assignment
    pub converts :
        auto_convert message_of lines now capture db
        ≡ settle_conversion message_of lines now capture a
            (create_from_appointment a.id a.centre_id (some assignment) now db)

  abbrev pub Outcome : Db → Db → Type 0
  Outcome db after = (forget_notes after ≡ forget_notes db) ⊎ ((a : Appointment) × IsEligible a db)
