-- ===== src/Ingest/Frames.antt =====
-- What the steps of a promotion leave alone.
use ivis_backend.Base.{
  ℕ, suc, ◌≤◌, true, false, Option, none, some, [], ◌∷◌, ◌++◌, any, Text, ◌≡◌, refl, sym, subst,
  arith, Bool-cases, inl, inr,
}
use ivis_backend.Store.Entities.{
  Customer, Payment, ProviderBooking, AppointmentBooking, Appointment, Db,
}
use ivis_backend.Store.Action.{Action, ok, err, Error, pure, ◌>>=◌, throw_if, modify}
use ivis_backend.Store.Dao.{clashes, insert_payment, next_payments_id}
use ivis_backend.Payments.Create.{drawn, insert_payment_ok, insert_payment_err}
use ivis_backend.Store.Runs.{bind_ok, bind_err, throw_if_ok, throw_if_err}
use ivis_backend.Ingest.Dao.{
  insert_appointment, clashes_with, find_by_vehicle_record_id, find_by_provider_reference,
}
use ivis_backend.Ingest.Bookings.{Formats}
use ivis_backend.Ingest.Phone.{to_local_oman_digits}
use ivis_backend.Ingest.Parties.{
  nonblank, create_customer, customer_id_for, customer_for, ensure_customer, record_unless_known,
  payment_for, payment_from, trim_some, resolve_payment_type_id, ensure_payment,
}

-- Appointments, vehicle records and bookings stay, and ids are drawn only upwards.
pub record Rests (db db' : Db) : Type 0 where
  pub appointments : db'.appointments ≡ db.appointments
  pub vehicle_records : db'.vehicle_records ≡ db.vehicle_records
  pub bookings : db'.bookings ≡ db.bookings
  pub grows : db.next_id ≤ db'.next_id

pub Rests-refl : (db : Db) → Rests db db
Rests-refl db = record {
  appointments = refl;
  vehicle_records = refl;
  bookings = refl;
  grows = omega arith;
}

-- A call that succeeds and leaves all that.
abbrev pub Returns : {A : Type 0} → Action A → Db → Type 0
Returns {A} m db = (a : A) × (db' : Db) × (m db ≡ (ok a, db')) × Rests db db'

customer_for-known :
    (payload : ProviderBooking) (name phone : Text) (vehicle : ℕ) (db : Db)
    (known : Option Customer)
    → Returns (customer_id_for payload name phone vehicle known >>= λ id. pure (some id)) db
customer_for-known payload name phone vehicle db none = (
  some db.next_id,
  (create_customer payload name phone vehicle db).1,
  refl,
  record { appointments = refl; vehicle_records = refl; bookings = refl; grows = omega arith },
)
customer_for-known payload name phone vehicle db (some c) = (some c.id, db, refl, Rests-refl db)

customer_for-Returns :
    (payload : ProviderBooking) (name phone : Option Text) (vehicle : Option ℕ) (db : Db)
    → Returns (customer_for payload name phone vehicle) db
customer_for-Returns payload (some name) (some phone) (some vehicle) db =
    customer_for-known payload name phone vehicle db (find_by_vehicle_record_id vehicle db)
customer_for-Returns payload none phone vehicle db = (none, db, refl, Rests-refl db)
customer_for-Returns payload (some name) none vehicle db = (none, db, refl, Rests-refl db)
customer_for-Returns payload (some name) (some phone) none db = (none, db, refl, Rests-refl db)

pub ensure_customer-Returns :
    (payload : ProviderBooking) (vehicle : Option ℕ) (db : Db)
    → Returns (ensure_customer payload vehicle) db
unfolding ensure_customer
ensure_customer-Returns payload vehicle db =
    customer_for-Returns payload (nonblank payload.customer_name)
      (to_local_oman_digits payload.customer_phone) vehicle db

insert_payment-Rests : (p : Payment) (db : Db) → Rests db (insert_payment p db).1
insert_payment-Rests p db = elim (Bool-cases (any (clashes p) db.payments)) [
  | inl taken ↦ subst (λ r. Rests db r.1) (sym (insert_payment_err p db taken)) (Rests-refl db)
  | inr free ↦
      subst (λ r. Rests db r.1) (sym (insert_payment_ok p db free))
        (record {
          appointments = refl;
          vehicle_records = refl;
          bookings = refl;
          grows = omega arith;
        })
]

record_unless_known-Rests :
    (f : Formats) (now : ℕ) (booking : AppointmentBooking) (reference : Text)
    (appointment customer vehicle : ℕ) (db : Db) (known : Option Payment)
    → Rests db (record_unless_known f now booking reference appointment customer vehicle known db).1
record_unless_known-Rests f now booking reference appointment customer vehicle db (some p) =
    Rests-refl db
record_unless_known-Rests f now booking reference appointment customer vehicle db none =
    let number = next_payments_id (drawn db) in
    let type = resolve_payment_type_id (trim_some booking.payload.payment_method) (drawn db) in
    let payment =
      payment_from f now booking reference appointment customer vehicle db.next_id number type in
    let rest = insert_payment-Rests payment (drawn db) in
    record {
      appointments = rest.appointments;
      vehicle_records = rest.vehicle_records;
      bookings = rest.bookings;
      grows =
          let g : suc db.next_id ≤ (insert_payment payment (drawn db)).1.next_id = rest.grows in
          omega arith;
    }

payment_for-Rests :
    (f : Formats) (now : ℕ) (booking : AppointmentBooking) (appointment : ℕ)
    (reference : Option Text) (customer vehicle : Option ℕ) (db : Db)
    → Rests db (payment_for f now booking appointment reference customer vehicle db).1
payment_for-Rests f now booking appointment (some reference) (some customer) (some vehicle) db =
    record_unless_known-Rests f now booking reference appointment customer vehicle db
      (find_by_provider_reference reference db)
payment_for-Rests f now booking appointment none customer vehicle db = Rests-refl db
payment_for-Rests f now booking appointment (some reference) none vehicle db = Rests-refl db
payment_for-Rests f now booking appointment (some reference) (some customer) none db = Rests-refl db

pub ensure_payment-Rests :
    (f : Formats) (now : ℕ) (booking : AppointmentBooking) (saved : Appointment)
    (customer vehicle : Option ℕ) (db : Db)
    → Rests db (ensure_payment f now booking saved customer vehicle db).1
unfolding ensure_payment
ensure_payment-Rests f now booking saved customer vehicle db =
    payment_for-Rests f now booking saved.id (nonblank booking.payload.payment_reference) customer
      vehicle db

abbrev pub with_appointment : Appointment → Db → Db
with_appointment a db = record db { appointments = db.appointments ++ a ∷ [] }

pub insert_appointment_ok :
    (a : Appointment) (db : Db)
    → any (clashes_with a) db.appointments ≡ false
    → insert_appointment a db ≡ (ok tt, with_appointment a db)
unfolding insert_appointment
insert_appointment_ok a db free =
    bind_ok (throw_if _ Error.database) (λ _. modify (with_appointment a))
      (throw_if_ok Error.database free)

pub insert_appointment_err :
    (a : Appointment) (db : Db)
    → any (clashes_with a) db.appointments ≡ true
    → insert_appointment a db ≡ (err Error.database, db)
unfolding insert_appointment
insert_appointment_err a db taken =
    bind_err (throw_if _ Error.database) (λ _. modify (with_appointment a))
      (throw_if_err Error.database taken)
