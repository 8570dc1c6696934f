-- ===== src/Ingest/Parties.antt =====
-- Whom and what a booking names: `ensureVehicleRecord`, `ensureCustomer`, `ensurePayment` and
-- `resolvePaymentTypeId`.
use ivis_backend.Base.{
  ℕ, false, Option, none, some, [], ◌∷◌, ◌++◌, or_else, trim, includes, Text, text, to_upper,
  if◌then◌else◌,
}
use ivis_backend.Store.Entities.{
  VehicleRecord, Customer, PaymentStatus, Payment, ProviderBooking, AppointmentBooking, Appointment,
  Db,
}
use ivis_backend.Store.Action.{Action, pure, gets, modify, ◌>>=◌, ◌>>◌, generate_snowflake_id}
use ivis_backend.Store.Dao.{
  find_by_plate_number, next_vehicle_record_id, next_payments_id, insert_payment,
}
use ivis_backend.Ingest.Phone.{to_local_oman_digits}
use ivis_backend.Ingest.Dao.{
  find_by_vehicle_record_id, next_customer_id, find_by_provider_reference, find_by_name,
}
use ivis_backend.Ingest.Bookings.{Formats}

-- `s?.trim()`, missing where nothing is left.
abbrev pub nonempty : Text → Option Text
nonempty [] = none
nonempty (c ∷ s) = some (c ∷ s)

abbrev pub nonblank : Option Text → Option Text
nonblank none = none
nonblank (some s) = nonempty (trim s)

abbrev pub vehicle_of : ProviderBooking → Text → ℕ → ℕ → VehicleRecord
vehicle_of payload plate id number = record {
  id = id;
  vehicle_record_id = number;
  plate_number = plate;
  vehicle_type = some payload.plate_type;
  chassis_no = or_else payload.chassis_number payload.vin;
  vehicle_make = payload.make;
  vehicle_model = payload.model;
  vehicle_color = payload.color;
  vehicle_master = none;
  is_deleted = false;
}

abbrev pub create_vehicle_record : ProviderBooking → Text → Action ℕ
create_vehicle_record payload plate = do
  id ← generate_snowflake_id
  number ← gets next_vehicle_record_id
  modify (λ db. record db {
    vehicle_records = db.vehicle_records ++ vehicle_of payload plate id number ∷ [];
  })
  pure id

abbrev pub vehicle_id_for : ProviderBooking → Text → Option VehicleRecord → Action ℕ
vehicle_id_for payload plate (some v) = pure v.id
vehicle_id_for payload plate none = create_vehicle_record payload plate

abbrev pub vehicle_record_for : ProviderBooking → Option Text → Action (Option ℕ)
vehicle_record_for payload none = pure none
vehicle_record_for payload (some plate) = do
  known ← gets (find_by_plate_number plate)
  id ← vehicle_id_for payload plate known
  pure (some id)

unfoldable pub ensure_vehicle_record : AppointmentBooking → Action (Option ℕ)
ensure_vehicle_record booking =
    vehicle_record_for booking.payload (nonblank (some booking.plate_number))

abbrev pub customer_from : ProviderBooking → Text → Text → ℕ → ℕ → ℕ → Customer
customer_from payload name phone vehicle id number = record {
  id = id;
  customer_id = number;
  owner_name = name;
  owner_phone_number = phone;
  driver_name = nonblank payload.driver_name;
  driver_phone_number = elim (nonblank payload.driver_phone) [
    | none ↦ none
    | some _ ↦ to_local_oman_digits payload.driver_phone
  ];
  chassis_no = none;
  vehicle_record_id = some vehicle;
  is_deleted = false;
}

abbrev pub create_customer : ProviderBooking → Text → Text → ℕ → Action ℕ
create_customer payload name phone vehicle = do
  id ← generate_snowflake_id
  number ← gets next_customer_id
  modify (λ db. record db {
    customers = db.customers ++ customer_from payload name phone vehicle id number ∷ [];
  })
  pure id

abbrev pub customer_id_for : ProviderBooking → Text → Text → ℕ → Option Customer → Action ℕ
customer_id_for payload name phone vehicle (some c) = pure c.id
customer_id_for payload name phone vehicle none = create_customer payload name phone vehicle

abbrev pub customer_for : ProviderBooking → Option Text → Option Text → Option ℕ → Action (Option ℕ)
customer_for payload (some name) (some phone) (some vehicle) = do
  known ← gets (find_by_vehicle_record_id vehicle)
  id ← customer_id_for payload name phone vehicle known
  pure (some id)
customer_for _ _ _ _ = pure none

unfoldable pub ensure_customer : ProviderBooking → Option ℕ → Action (Option ℕ)
unfolding to_local_oman_digits
ensure_customer payload vehicle =
    customer_for payload (nonblank payload.customer_name)
      (to_local_oman_digits payload.customer_phone) vehicle

-- `/CARD/i.test(method)`
unfoldable pub resolve_payment_type_id : Option Text → Db → Option ℕ
unfolding find_by_name
resolve_payment_type_id none db = none
resolve_payment_type_id (some method) db =
    if includes (to_upper method) (text "CARD")
    then (elim (find_by_name (text "Card") db) [ none ↦ none | some t ↦ some t.id ])
    else none

abbrev pub trim_some : Option Text → Option Text
trim_some none = none
trim_some (some s) = some (trim s)

abbrev pub fee_of : Formats → Option Text → ℕ
fee_of f none = 0
fee_of f (some s) = f.amount_of s

abbrev pub payment_from :
    Formats → ℕ → AppointmentBooking → Text → ℕ → ℕ → ℕ → ℕ → ℕ → Option ℕ → Payment
payment_from f now booking reference appointment customer vehicle id number type = record {
  id = id;
  payment_id = number;
  job_id = none;
  appointment_id = some appointment;
  customer_id = customer;
  vehicle_record_id = vehicle;
  anpr_capture_id = none;
  centre_id = some booking.centre_id;
  line_id = none;
  camera_id = none;
  payment_type_id = type;
  status = PaymentStatus.paid;
  grand_total = fee_of f booking.payload.fee_amount;
  provider_payment_reference = some reference;
  provider_payment_method = trim_some booking.payload.payment_method;
  pay_date = some now;
  is_deleted = false;
}

abbrev pub record_payment : Formats → ℕ → AppointmentBooking → Text → ℕ → ℕ → ℕ → Action (Unit {0})
record_payment f now booking reference appointment customer vehicle = do
  id ← generate_snowflake_id
  number ← gets next_payments_id
  type ← gets (resolve_payment_type_id (trim_some booking.payload.payment_method))
  insert_payment (payment_from f now booking reference appointment customer vehicle id number type)

-- `if (existing) return`
abbrev pub record_unless_known :
    Formats → ℕ → AppointmentBooking → Text → ℕ → ℕ → ℕ → Option Payment → Action (Unit {0})
record_unless_known f now booking reference appointment customer vehicle (some p) = pure tt
record_unless_known f now booking reference appointment customer vehicle none =
    record_payment f now booking reference appointment customer vehicle

abbrev pub payment_for :
    Formats → ℕ → AppointmentBooking → ℕ → Option Text → Option ℕ → Option ℕ → Action (Unit {0})
payment_for f now booking appointment (some reference) (some customer) (some vehicle) = do
  known ← gets (find_by_provider_reference reference)
  record_unless_known f now booking reference appointment customer vehicle known
payment_for f now booking appointment _ _ _ = pure tt

unfoldable pub ensure_payment :
    Formats → ℕ → AppointmentBooking → Appointment → Option ℕ → Option ℕ → Action (Unit {0})
unfolding resolve_payment_type_id
ensure_payment f now booking appointment customer vehicle =
    payment_for f now booking appointment.id (nonblank booking.payload.payment_reference) customer
      vehicle
