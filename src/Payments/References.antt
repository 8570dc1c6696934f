-- ===== src/Payments/References.antt =====
-- The columns of a payment that point elsewhere, and `resolveReferences` of
-- transactions/payments/services/payments.service.ts.
use ivis_backend.Base.{ℕ, Bool, Option, none, some, or_else}
use ivis_backend.Store.Entities.{Appointment, Job}
use ivis_backend.Store.Action.{Action, Error, Resource, pure, gets, or_throw, ◌>>=◌}
use ivis_backend.Store.Dao.{active_customer, active_vehicle_record, active_appointment}
use ivis_backend.Pricing.{find_one, then_by}

-- The columns that point elsewhere, as a request posts them.
pub record References : Type 0 where
  pub job_id : Option ℕ
  pub appointment_id : Option ℕ
  pub customer_id : Option ℕ
  pub vehicle_record_id : Option ℕ
  pub anpr_capture_id : Option ℕ
  pub centre_id : Option ℕ
  pub line_id : Option ℕ
  pub admin_pc_id : Option ℕ
  pub camera_id : Option ℕ

-- CreatePaymentsDto and UpdatePaymentsDto; `grand_total` is required on creation only.
pub record CreatePaymentsDto : Type 0 where
  pub references : References
  pub payments_id : Option ℕ
  pub payment_type_id : Option ℕ
  pub grand_total : ℕ
  pub pay_date : Option ℕ
  pub auto_create_job : Option Bool

pub record UpdatePaymentsDto : Type 0 where
  pub references : References
  pub payment_type_id : Option ℕ
  pub grand_total : Option ℕ
  pub pay_date : Option ℕ
  pub auto_create_job : Option Bool

pub record Resolved : Type 0 where
  pub appointment_id : Option ℕ
  pub customer_id : ℕ
  pub vehicle_record_id : ℕ
  pub anpr_capture_id : Option ℕ
  pub centre_id : Option ℕ
  pub line_id : Option ℕ
  pub admin_pc_id : Option ℕ
  pub camera_id : Option ℕ

-- `x = x ?? job.x ?? undefined`, for each column.
abbrev pub from_job : References → Job → References
from_job r job = record {
  job_id = r.job_id;
  appointment_id = or_else r.appointment_id job.appointment_id;
  customer_id = or_else r.customer_id (some job.customer_id);
  vehicle_record_id = or_else r.vehicle_record_id (some job.vehicle_record_id);
  anpr_capture_id = or_else r.anpr_capture_id job.anpr_capture_id;
  centre_id = or_else r.centre_id job.centre_id;
  line_id = or_else r.line_id job.line_id;
  admin_pc_id = or_else r.admin_pc_id job.admin_pc_id;
  camera_id = or_else r.camera_id job.camera_id;
}

abbrev pub capture_id : Appointment → Option ℕ
capture_id a = then_by a.anpr_capture (λ c. some c.id)

abbrev pub from_appointment : References → Appointment → References
from_appointment r a = record r {
  anpr_capture_id = or_else r.anpr_capture_id (capture_id a);
  centre_id = or_else r.centre_id a.centre_id;
  line_id = or_else r.line_id a.line_id;
}

abbrev pub fill_from_job : References → Action References
fill_from_job r = elim r.job_id [
  | none ↦ pure r
  | some id ↦ do job ← find_one id; pure (from_job r job)
]

abbrev pub fill_from_appointment : References → Action References
fill_from_appointment r = elim r.appointment_id [
  | none ↦ pure r
  | some id ↦ do
    a ← or_throw (← gets (active_appointment id)) (Error.not_found Resource.appointment)
    pure (from_appointment r a)
]

abbrev pub resolved_of : References → ℕ → ℕ → Resolved
resolved_of r customer vehicle_record = record {
  appointment_id = r.appointment_id;
  customer_id = customer;
  vehicle_record_id = vehicle_record;
  anpr_capture_id = r.anpr_capture_id;
  centre_id = r.centre_id;
  line_id = r.line_id;
  admin_pc_id = r.admin_pc_id;
  camera_id = r.camera_id;
}

abbrev pub check_owner : References → Action Resolved
check_owner r = do
  customer ← or_throw r.customer_id (Error.not_found Resource.customer)
  vehicle_record ← or_throw r.vehicle_record_id (Error.not_found Resource.vehicle_record)
  _ ← or_throw (← gets (active_customer customer)) (Error.not_found Resource.customer)
  _ ←
      or_throw (← gets (active_vehicle_record vehicle_record))
        (Error.not_found Resource.vehicle_record)
  filled ← fill_from_appointment r
  pure (resolved_of filled customer vehicle_record)

unfoldable pub resolve_references : References → Action Resolved
resolve_references r = do filled ← fill_from_job r; check_owner filled
