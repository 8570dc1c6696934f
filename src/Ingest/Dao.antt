-- ===== src/Ingest/Dao.antt =====
-- The queries of database/dao that the ingest of bookings makes. The rows stand in the order in which
-- they were created.
use Prim.Native.Nat.{compare, Ordering}
use ivis_backend.Base.{
  ℕ, ◌+◌, ◌*◌, ◌==◌, leb, Bool, true, false, ◌&&◌, ◌||◌, not, Option, none, some, List, [], ◌∷◌,
  ◌++◌, some_is, find, keep, map, update_first, sort_by, any, trim, Text, text_eq, to_upper,
  to_lower, if◌then◌else◌,
}
use ivis_backend.Store.Entities.{
  VehicleRecord, Customer, AppointmentStatus, Appointment, Payment, PaymentType, AppointmentBooking,
  Db,
}
use ivis_backend.Store.Action.{Action, Error, ◌>>=◌, ◌>>◌, throw_if, modify, gets}
use ivis_backend.Store.Dao.{max_of, same_text}
use ivis_backend.Outbox.Dispatcher.{oman_day}

module _ {ℓ} {A : Type ℓ} where
  -- The newest row that passes.
  abbrev pub find_last : (A → Bool) → List A → Option A
  find_last p [] = none
  find_last p (x ∷ xs) = elim (find_last p xs) [
    | some y ↦ some y
    | none ↦ elim (p x) [ true ↦ some x | false ↦ none ]
  ]

-- appointment-booking.dao.ts
abbrev pub find_by_booking_id : Text → Db → Option AppointmentBooking
find_by_booking_id id db = find (λ b. text_eq b.booking_id id) db.bookings

abbrev pub is_of_day : ℕ → Text → AppointmentBooking → Bool
is_of_day centre day b = b.centre_id == centre && text_eq b.booking_date day

abbrev pub find_by_centre_and_date : ℕ → Text → Db → List AppointmentBooking
find_by_centre_and_date centre day db = keep (is_of_day centre day) db.bookings

abbrev pub awaits_promotion : ℕ → AppointmentBooking → Bool
awaits_promotion centre b =
    b.centre_id == centre && elim b.appointment_id [ none ↦ not b.is_withdrawn | some _ ↦ false ]

abbrev pub text_leb : Text → Text → Bool
text_leb [] t = true
text_leb (a ∷ s) [] = false
text_leb (a ∷ s) (b ∷ t) = elim (compare a b) [
  | Ordering.lt ↦ true
  | Ordering.eq ↦ text_leb s t
  | Ordering.gt ↦ false
]

-- `ASC` puts null last.
abbrev pub time_leb : Option Text → Option Text → Bool
time_leb (some s) (some t) = text_leb s t
time_leb (some s) none = true
time_leb none (some t) = false
time_leb none none = true

abbrev pub is_earlier_slot : AppointmentBooking → AppointmentBooking → Bool
is_earlier_slot a b =
    if text_eq a.booking_date b.booking_date
    then time_leb a.booking_time b.booking_time
    else text_leb a.booking_date b.booking_date

unfoldable pub find_pending_promotion : ℕ → Db → List AppointmentBooking
find_pending_promotion centre db =
    sort_by is_earlier_slot (keep (awaits_promotion centre) db.bookings)

abbrev pub withdrawn_if : Bool → AppointmentBooking → AppointmentBooking
withdrawn_if true b = record b { is_withdrawn = true }
withdrawn_if false b = b

unfoldable pub mark_withdrawn : List ℕ → Db → Db
mark_withdrawn [] db = db
mark_withdrawn (id ∷ ids) db = record db {
  bookings = map (λ b. withdrawn_if (any (λ k. k == b.id) (id ∷ ids)) b) db.bookings;
}

-- `save(booking)`
abbrev pub save_booking : AppointmentBooking → Db → Db
save_booking b db = record db { bookings = update_first (λ q. q.id == b.id) (λ _. b) db.bookings }

-- appointment.dao.ts
abbrev pub is_some_text : Option Text → Text → Bool
is_some_text none t = false
is_some_text (some s) t = text_eq s t

abbrev pub find_by_provider_booking_id : Text → Db → Option Appointment
find_by_provider_booking_id id db =
    find (λ a. is_some_text a.provider_booking_id id && not a.is_deleted) db.appointments

-- `status NOT IN (Converted, Cancelled)`
abbrev pub is_unfinished : AppointmentStatus → Bool
is_unfinished AppointmentStatus.queued = true
is_unfinished AppointmentStatus.scheduled = true
is_unfinished AppointmentStatus.cancelled = false
is_unfinished AppointmentStatus.converted = false

-- `appointment_at >= :activeFrom`, the start of the Oman day of `now`.
abbrev pub is_since_today : ℕ → Option ℕ → Bool
is_since_today now none = false
is_since_today now (some at) = leb (oman_day now * 86400000) (at + 14400000)

-- A queued row is open only from today on.
abbrev pub is_current : ℕ → Appointment → Bool
is_current now a = elim a.status [
  | AppointmentStatus.queued ↦ is_since_today now a.appointment_at
  | AppointmentStatus.scheduled ↦ true
  | AppointmentStatus.cancelled ↦ true
  | AppointmentStatus.converted ↦ true
]

abbrev pub same_plate : Text → Option Text → Bool
same_plate plate none = false
same_plate plate (some s) = text_eq (to_upper s) (to_upper plate)

abbrev pub plate_of_record : Option ℕ → List VehicleRecord → Option Text
plate_of_record none records = none
plate_of_record (some id) records = elim (find (λ v. v.id == id) records) [
  | none ↦ none
  | some v ↦ some v.plate_number
]

unfoldable pub is_open_for : ℕ → Text → List VehicleRecord → Appointment → Bool
is_open_for now plate records a =
    not a.is_deleted
    && (is_unfinished a.status
        && (is_current now a
            && (same_plate plate a.plate_number
                || same_plate plate (plate_of_record a.vehicle_record_id records))))

abbrev pub find_open_by_plate : ℕ → Text → Db → Option Appointment
find_open_by_plate now plate db =
    find_last (is_open_for now plate db.vehicle_records) db.appointments

abbrev pub next_appointment_id : Db → ℕ
next_appointment_id db = max_of (λ (a : Appointment). a.appointment_id) db.appointments + 1

-- The unique indexes of `appointments`: `appointment_id`, and `provider_booking_id` where it is not null.
abbrev pub clashes_with : Appointment → Appointment → Bool
clashes_with a b =
    a.appointment_id == b.appointment_id || same_text a.provider_booking_id b.provider_booking_id

unfoldable pub insert_appointment : Appointment → Action (Unit {0})
insert_appointment a = do
  throw_if (← gets (λ db. any (clashes_with a) db.appointments)) Error.database
  modify (λ db. record db { appointments = db.appointments ++ a ∷ [] })

-- customer.dao.ts
abbrev pub find_by_vehicle_record_id : ℕ → Db → Option Customer
find_by_vehicle_record_id id db =
    find (λ c. some_is c.vehicle_record_id id && not c.is_deleted) db.customers

abbrev pub next_customer_id : Db → ℕ
next_customer_id db = max_of (λ (c : Customer). c.customer_id) db.customers + 1

-- payments.dao.ts
abbrev pub find_by_provider_reference : Text → Db → Option Payment
find_by_provider_reference reference db =
    find (λ p. is_some_text p.provider_payment_reference reference && not p.is_deleted) db.payments

-- payment-type.dao.ts
unfoldable pub find_by_name : Text → Db → Option PaymentType
find_by_name name db =
    find (λ t. text_eq (to_lower t.name) (to_lower (trim name)) && not t.is_deleted)
      db.payment_types
