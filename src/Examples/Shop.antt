-- ===== src/Examples/Shop.antt =====
-- A centre with one booking, one walk-in job and two charges.
use ivis_backend.Base.{ℕ, Bool, true, false, Option, none, some, [], ◌∷◌, Text, text}
use ivis_backend.Store.Entities.{
  VehicleRecord, Customer, AppointmentStatus, RopVerificationStatus, Appointment, Job,
  PaymentStatus, Payment, Charge, Db,
}

abbrev pub no_advance : Text → Option ℕ
no_advance plate = none

abbrev pub owner : Customer
owner = record {
  id = 1;
  customer_id = 1;
  owner_name = text "Salim";
  owner_phone_number = text "91234567";
  driver_name = none;
  driver_phone_number = none;
  chassis_no = none;
  vehicle_record_id = some 2;
  is_deleted = false;
}

abbrev pub car : VehicleRecord
car = record {
  id = 2;
  vehicle_record_id = 1;
  plate_number = text "1234 A";
  vehicle_type = some (text " SUV");
  chassis_no = some (text "VIN");
  vehicle_make = none;
  vehicle_model = none;
  vehicle_color = none;
  vehicle_master = none;
  is_deleted = false;
}

abbrev pub booking : Appointment
booking = record {
  id = 3;
  appointment_id = 1;
  booking_type = text "Online";
  provider_booking_id = some (text "B1");
  plate_number = some (text "1234 A");
  status = AppointmentStatus.queued;
  appointment_at = some 86400000;
  customer_id = some 1;
  anpr_capture = some (record { id = 4; plate_number = none; vehicle_type = none });
  rop_status = some RopVerificationStatus.validated;
  vehicle_record_id = some 2;
  centre_id = some 6;
  line_id = some 7;
  provider_status = some (text "CONFIRMED");
  provider_payment_status = some (text "PAID");
  provider_fee_amount = none;
  provider_payment_method = none;
  provider_payment_reference = none;
  is_reinspection = false;
  assigned_lane = none;
  auto_convert_blocked_reason = none;
  created_at = 80000000;
  is_deleted = false;
}

abbrev pub walk_in : Job
walk_in = record {
  id = 10;
  job_id = 1;
  appointment_id = none;
  status = text "Pending";
  customer_id = 1;
  vehicle_record_id = 2;
  anpr_capture_id = none;
  centre_id = some 6;
  line_id = some 7;
  assigned_user_id = none;
  admin_pc_id = none;
  camera_id = none;
  charge_id = none;
  test_results = none;
  overall_result = none;
  infile_name = none;
  infile_path = none;
  outfile_name = none;
  outfile_path = none;
  started_at = none;
  completed_at = none;
  is_deleted = false;
}

abbrev pub charge_of : ℕ → Text → ℕ → Charge
charge_of id vehicle_type total = record {
  id = id;
  centre_id = some 6;
  vehicle_type = vehicle_type;
  charge_category_id = none;
  center_charges = total;
  rop_charges = 0;
  vat_percent = 0;
  grand_total = total;
  status = text "Active";
  is_enabled = true;
  is_deleted = false;
}

abbrev pub suv : Charge
suv = charge_of 20 (text "suv") 50000

abbrev pub sedan : Charge
sedan = charge_of 21 (text "sedan") 30000

abbrev pub shop : Db
shop = record {
  next_id = 100;
  customers = owner ∷ [];
  vehicle_records = car ∷ [];
  appointments = booking ∷ [];
  bookings = [];
  jobs = walk_in ∷ [];
  payments = [];
  payment_types = [];
  charges = suv ∷ sedan ∷ [];
  anpr_captures = 4 ∷ [];
  centres = 6 ∷ [];
  lines = 7 ∷ [];
  admin_pcs = [];
  cameras = [];
  line_users = (7, 8) ∷ [];
}

abbrev pub payment_of : ℕ → Bool → Payment
payment_of total is_deleted = record {
  id = 30;
  payment_id = 1;
  job_id = some 10;
  appointment_id = none;
  customer_id = 1;
  vehicle_record_id = 2;
  anpr_capture_id = none;
  centre_id = none;
  line_id = none;
  camera_id = none;
  payment_type_id = none;
  status = PaymentStatus.paid;
  grand_total = total;
  provider_payment_reference = none;
  provider_payment_method = none;
  pay_date = none;
  is_deleted = is_deleted;
}
