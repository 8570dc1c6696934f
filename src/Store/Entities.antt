-- ===== src/Store/Entities.antt =====
-- The columns of database/entity that the modelled services read or write. Ids are compared and
-- copied only. An amount is in ten-thousandths of a rial (OMR has three decimals), an instant in
-- milliseconds. A column is `Option` where it is nullable.
use ivis_backend.Base.{ℕ, Bool, Option, Text, List, true, false}
use ivis_backend.Exchange.Ini.{Ini}

pub record VehicleMaster : Type 0 where
  pub vehicle_type : Option Text
  pub charge_category_id : Option ℕ

pub record VehicleRecord : Type 0 where
  pub id : ℕ
  pub vehicle_record_id : ℕ
  pub plate_number : Text
  pub vehicle_type : Option Text
  pub chassis_no : Option Text
  pub vehicle_make : Option Text
  pub vehicle_model : Option Text
  pub vehicle_color : Option Text
  pub vehicle_master : Option VehicleMaster
  pub is_deleted : Bool

pub record Customer : Type 0 where
  pub id : ℕ
  pub customer_id : ℕ
  pub owner_name : Text
  pub owner_phone_number : Text
  pub driver_name : Option Text
  pub driver_phone_number : Option Text
  pub chassis_no : Option Text
  pub vehicle_record_id : Option ℕ
  pub is_deleted : Bool

pub data AppointmentStatus : Type 0 where
  queued scheduled cancelled converted : AppointmentStatus

pub data RopVerificationStatus : Type 0 where
  pending validated failed : RopVerificationStatus

-- The plate and type that the lane's camera read.
pub record AnprCapture : Type 0 where
  pub id : ℕ
  pub plate_number : Option Text
  pub vehicle_type : Option Text

pub record Appointment : Type 0 where
  pub id : ℕ
  pub appointment_id : ℕ
  pub booking_type : Text
  pub provider_booking_id : Option Text
  pub plate_number : Option Text
  pub status : AppointmentStatus
  pub appointment_at : Option ℕ
  pub customer_id : Option ℕ
  pub anpr_capture : Option AnprCapture
  pub rop_status : Option RopVerificationStatus
  pub vehicle_record_id : Option ℕ
  pub centre_id : Option ℕ
  pub line_id : Option ℕ
  pub provider_status : Option Text
  pub provider_payment_status : Option Text
  pub provider_fee_amount : Option Text
  pub provider_payment_method : Option Text
  pub provider_payment_reference : Option Text
  pub is_reinspection : Bool
  pub assigned_lane : Option Text
  pub auto_convert_blocked_reason : Option Text
  pub created_at : ℕ
  pub is_deleted : Bool

pub record Job : Type 0 where
  pub id : ℕ
  pub job_id : ℕ
  pub appointment_id : Option ℕ
  pub status : Text
  pub customer_id : ℕ
  pub vehicle_record_id : ℕ
  pub anpr_capture_id : Option ℕ
  pub centre_id : Option ℕ
  pub line_id : Option ℕ
  pub assigned_user_id : Option ℕ
  pub admin_pc_id : Option ℕ
  pub camera_id : Option ℕ
  pub charge_id : Option ℕ
  pub test_results : Option Ini
  pub overall_result : Option Text
  pub infile_name : Option Text
  pub infile_path : Option Text
  pub outfile_name : Option Text
  pub outfile_path : Option Text
  pub started_at : Option ℕ
  pub completed_at : Option ℕ
  pub is_deleted : Bool

pub data PaymentStatus : Type 0 where
  pending paid cancelled : PaymentStatus

pub record Payment : Type 0 where
  pub id : ℕ
  pub payment_id : ℕ
  pub job_id : Option ℕ
  pub appointment_id : Option ℕ
  pub customer_id : ℕ
  pub vehicle_record_id : ℕ
  pub anpr_capture_id : Option ℕ
  pub centre_id : Option ℕ
  pub line_id : Option ℕ
  pub camera_id : Option ℕ
  pub payment_type_id : Option ℕ
  pub status : PaymentStatus
  pub grand_total : ℕ
  pub provider_payment_reference : Option Text
  pub provider_payment_method : Option Text
  pub pay_date : Option ℕ
  pub is_deleted : Bool

pub record Charge : Type 0 where
  pub id : ℕ
  pub centre_id : Option ℕ
  pub vehicle_type : Text
  pub charge_category_id : Option ℕ
  pub center_charges : ℕ
  pub rop_charges : ℕ
  pub vat_percent : ℕ
  pub grand_total : ℕ
  pub status : Text
  pub is_enabled : Bool
  pub is_deleted : Bool

pub record PaymentType : Type 0 where
  pub id : ℕ
  pub name : Text
  pub is_deleted : Bool

-- appointment.types.ts: a booking as the provider returns it, as far as it is read. The two drivers'
-- fields are read off the raw payload.
pub record ProviderBooking : Type 0 where
  pub booking_id : Text
  pub status : Text
  pub appointment_date : Text
  pub appointment_time : Option Text
  pub assigned_lane : Option Text
  pub is_reinspection : Bool
  pub payment_status : Option Text
  pub fee_amount : Option Text
  pub payment_method : Option Text
  pub payment_reference : Option Text
  pub plate_number : Text
  pub plate_type : Text
  pub make : Option Text
  pub model : Option Text
  pub color : Option Text
  pub chassis_number : Option Text
  pub vin : Option Text
  pub customer_name : Option Text
  pub customer_phone : Option Text
  pub driver_name : Option Text
  pub driver_phone : Option Text

-- A row of `appointment_bookings`.
pub record AppointmentBooking : Type 0 where
  pub id : ℕ
  pub booking_id : Text
  pub centre_id : ℕ
  pub provider_branch_code : Text
  pub booking_date : Text
  pub booking_time : Option Text
  pub plate_number : Text
  pub plate_type : Text
  pub provider_status : Text
  pub payload : ProviderBooking
  pub appointment_id : Option ℕ
  pub is_withdrawn : Bool
  pub first_seen_at : ℕ
  pub last_seen_at : ℕ

-- `next_id` is the state of the snowflake generator. Of a table that is only asked whether an id is
-- active, the model keeps the active ids; `line_users` are the active pairs (line, user).
pub record Db : Type 0 where
  pub next_id : ℕ
  pub customers : List Customer
  pub vehicle_records : List VehicleRecord
  pub appointments : List Appointment
  pub bookings : List AppointmentBooking
  pub jobs : List Job
  pub payments : List Payment
  pub payment_types : List PaymentType
  pub charges : List Charge
  pub anpr_captures : List ℕ
  pub centres : List ℕ
  pub lines : List ℕ
  pub admin_pcs : List ℕ
  pub cameras : List ℕ
  pub line_users : List (ℕ × ℕ)

abbrev pub is_cancelled : PaymentStatus → Bool
is_cancelled PaymentStatus.cancelled = true
is_cancelled _ = false
