-- ===== src/Ingest/Reconcile.antt =====
-- `syncPromoted`: the promoted appointments follow what the provider says.
use ivis_backend.Base.{
  ℕ, ◌==◌, Bool, true, false, ◌&&◌, ◌||◌, not, Option, none, some, List, [], ◌∷◌, is_some, find,
  update_first, Text, text, if◌then◌else◌,
}
use ivis_backend.Store.Entities.{
  AppointmentStatus, PaymentStatus, Payment, Appointment, AppointmentBooking, Db, is_cancelled,
}
use ivis_backend.Ingest.Dao.{find_by_centre_and_date, find_by_provider_reference, is_some_text}
use ivis_backend.Ingest.Bookings.{Formats, to_instant}
use ivis_backend.Ingest.Parties.{nonempty}

abbrev pub appointment_by_id : ℕ → Db → Option Appointment
appointment_by_id id db = find (λ a. a.id == id) db.appointments

-- `appointmentDao.update(id, patch)`
abbrev pub patch_appointment : ℕ → (Appointment → Appointment) → Db → Db
patch_appointment id change db = record db {
  appointments = update_first (λ a. a.id == id) change db.appointments;
}

abbrev pub set_payment_status : PaymentStatus → ℕ → Db → Db
set_payment_status status id db = record db {
  payments = update_first (λ p. p.id == id) (λ p. record p { status = status }) db.payments;
}

abbrev pub filled_text : Option Text → Option Text
filled_text none = none
filled_text (some s) = nonempty s

abbrev pub payment_of_booking : AppointmentBooking → Db → Option Payment
payment_of_booking booking db = elim (filled_text booking.payload.payment_reference) [
  | none ↦ none
  | some reference ↦ find_by_provider_reference reference db
]

abbrev pub cancel_found : Option Payment → Db → Db
cancel_found none db = db
cancel_found (some p) db =
    if is_cancelled p.status then db else set_payment_status PaymentStatus.cancelled p.id db

unfoldable pub cancel_payment_for : AppointmentBooking → Db → Db
cancel_payment_for booking db = cancel_found (payment_of_booking booking db) db

abbrev pub restore_found : Option Payment → Db → Db
restore_found none db = db
restore_found (some p) db =
    if is_cancelled p.status then set_payment_status PaymentStatus.paid p.id db else db

unfoldable pub restore_payment_for : AppointmentBooking → Db → Db
restore_payment_for booking db = restore_found (payment_of_booking booking db) db

abbrev pub is_cancelled_visit : AppointmentStatus → Bool
is_cancelled_visit AppointmentStatus.cancelled = true
is_cancelled_visit _ = false

abbrev pub is_queued : AppointmentStatus → Bool
is_queued AppointmentStatus.queued = true
is_queued _ = false

abbrev pub can_auto_cancel : Appointment → Bool
can_auto_cancel a = is_queued a.status && not (is_some a.anpr_capture)

abbrev pub upstream_reason : Text
upstream_reason = text "Booking cancelled upstream — confirm with the customer before proceeding"

-- An untouched placeholder is cancelled with its payment; any other row is only marked.
unfoldable pub handle_withdrawn : AppointmentBooking → Appointment → Db → Db
unfolding cancel_payment_for
handle_withdrawn booking a db =
    if is_cancelled_visit a.status
    then db
    else if can_auto_cancel a
    then cancel_payment_for booking
        (patch_appointment a.id (λ q. record q { status = AppointmentStatus.cancelled }) db)
    else if is_some_text a.auto_convert_blocked_reason upstream_reason
    then db
    else patch_appointment a.id
        (λ q. record q { auto_convert_blocked_reason = some upstream_reason }) db

abbrev pub requeued : Appointment → Appointment
requeued a =
    if is_cancelled_visit a.status then record a { status = AppointmentStatus.queued } else a

-- `if (appointment.auto_convert_blocked_reason)`
abbrev pub unblocked : Appointment → Appointment
unblocked a =
    if is_some (filled_text a.auto_convert_blocked_reason)
    then record a { auto_convert_blocked_reason = none }
    else a

abbrev pub is_at : Option ℕ → ℕ → Bool
is_at none slot = false
is_at (some at) slot = at == slot

-- The slot follows the booking while no vehicle has arrived.
abbrev pub is_moved : ℕ → Appointment → Bool
is_moved slot a = not (is_some a.anpr_capture) && not (is_at a.appointment_at slot)

abbrev pub moved : ℕ → Appointment → Appointment
moved slot a = if is_moved slot a then record a { appointment_at = some slot } else a

abbrev pub is_changed : ℕ → Appointment → Bool
is_changed slot a =
    is_cancelled_visit a.status
    || (is_some (filled_text a.auto_convert_blocked_reason) || is_moved slot a)

abbrev pub restored_if : Bool → AppointmentBooking → Db → Db
restored_if true booking db = restore_payment_for booking db
restored_if false booking db = db

-- `save(appointment)`
abbrev pub saved_if : Bool → Appointment → Db → Db
saved_if true a db = patch_appointment a.id (λ _. a) db
saved_if false a db = db

unfoldable pub follow : Formats → AppointmentBooking → Appointment → Db → Db
unfolding restore_payment_for
follow f booking a db =
    let slot = to_instant f booking.booking_date booking.booking_time in
    saved_if (is_changed slot a) (moved slot (unblocked (requeued a)))
      (restored_if (is_cancelled_visit a.status) booking db)

unfoldable pub sync_found : Formats → AppointmentBooking → Option Appointment → Db → Db
unfolding follow handle_withdrawn
sync_found f booking none db = db
sync_found f booking (some a) db =
    if a.is_deleted
    then db
    else if booking.is_withdrawn
    then handle_withdrawn booking a db
    else follow f booking a db

unfoldable pub sync_one : Formats → AppointmentBooking → Db → Db
unfolding sync_found
sync_one f booking db = elim booking.appointment_id [
  | none ↦ db
  | some id ↦ sync_found f booking (appointment_by_id id db) db
]

unfoldable pub sync_all : Formats → List AppointmentBooking → Db → Db
unfolding sync_one
sync_all f [] db = db
sync_all f (b ∷ held) db = sync_all f held (sync_one f b db)

unfoldable pub sync_promoted : Formats → ℕ → Text → Db → Db
unfolding sync_all
sync_promoted f centre day db = sync_all f (find_by_centre_and_date centre day db) db
