-- ===== src/Payments/Service.antt =====
-- `create`, `findOne` and `remove` of transactions/payments/services/payments.service.ts. `fetch` is
-- the answer of the payment API to a plate, `now` the clock.
use ivis_backend.Base.{
  ℕ, zero, suc, ltb, Bool, true, false, ◌&&◌, Option, none, some, Text, text, or_else, is_some,
  if◌then◌else◌,
}
use ivis_backend.Store.Entities.{PaymentStatus, Payment, Db}
use ivis_backend.Store.Action.{
  Action, Error, Resource, pure, gets, or_throw, ◌>>=◌, ◌>>◌, throw_if, hide_other_errors,
  generate_snowflake_id,
}
use ivis_backend.Store.Dao.{
  active_payment, next_payments_id, find_by_payments_id, find_payment_by_job, insert_payment,
  update_payment,
}
use ivis_backend.Pricing.{assert_amount_matches_charge}
use ivis_backend.Jobs.Service.{CreateJobDto, create}
use ivis_backend.Payments.References.{CreatePaymentsDto, Resolved, resolve_references}

-- A number of 0 is falsy.
unfoldable pub payment_number : Option ℕ → Action ℕ
payment_number none = gets next_payments_id
payment_number (some zero) = gets next_payments_id
payment_number (some (suc n)) = do
  throw_if (is_some (← gets (find_by_payments_id (suc n)))) (Error.duplicate Resource.payment)
  pure (suc n)

-- `isPaid ? pay_date ?? now : pay_date`
abbrev pub pay_date_of : CreatePaymentsDto → ℕ → Option ℕ
pay_date_of dto now =
    if ltb 0 dto.grand_total then or_else dto.pay_date (some now) else dto.pay_date

abbrev pub new_payment : CreatePaymentsDto → Resolved → ℕ → ℕ → ℕ → Payment
new_payment dto r now number id = record {
  id = id;
  payment_id = number;
  job_id = dto.references.job_id;
  appointment_id = r.appointment_id;
  customer_id = r.customer_id;
  vehicle_record_id = r.vehicle_record_id;
  anpr_capture_id = r.anpr_capture_id;
  centre_id = r.centre_id;
  line_id = r.line_id;
  camera_id = r.camera_id;
  payment_type_id = dto.payment_type_id;
  status = PaymentStatus.paid;
  grand_total = dto.grand_total;
  provider_payment_reference = none;
  provider_payment_method = none;
  pay_date = pay_date_of dto now;
  is_deleted = false;
}

-- The job that a payment raises.
abbrev pub job_of_payment : Resolved → CreateJobDto
job_of_payment r = record {
  job_id = none;
  appointment_id = r.appointment_id;
  status = some (text "Pending");
  customer_id = r.customer_id;
  vehicle_record_id = r.vehicle_record_id;
  anpr_capture_id = r.anpr_capture_id;
  centre_id = r.centre_id;
  line_id = r.line_id;
  assigned_user_id = none;
  admin_pc_id = r.admin_pc_id;
  camera_id = r.camera_id;
}

-- `auto_create_job !== false`
abbrev pub is_not_false : Option Bool → Bool
is_not_false none = true
is_not_false (some b) = b

abbrev pub link_new_job : Resolved → Payment → Action Payment
link_new_job r payment = do
  job ← create (job_of_payment r)
  update_payment (record payment { job_id = some job.id })
  pure (record payment { job_id = some job.id })

-- `(await findActiveById(saved.id)) ?? saved`
abbrev pub reload_payment : Payment → Action Payment
reload_payment saved = do
  found ← gets (active_payment saved.id)
  elim found [ none ↦ pure saved | some p ↦ pure p ]

abbrev pub raises_job : CreatePaymentsDto → Bool
raises_job dto = ltb 0 dto.grand_total && is_not_false dto.auto_create_job

abbrev pub save_payment : CreatePaymentsDto → Resolved → Payment → Action Payment
save_payment dto r payment = do
  insert_payment payment
  saved ← (if raises_job dto then link_new_job r payment else pure payment)
  reload_payment saved

abbrev pub draw_and_save : CreatePaymentsDto → ℕ → Resolved → ℕ → Action Payment
draw_and_save dto now r number = do
  id ← generate_snowflake_id
  save_payment dto r (new_payment dto r now number id)

abbrev pub create_new : (Text → Option ℕ) → ℕ → CreatePaymentsDto → Action Payment
create_new fetch now dto = do
  r ← resolve_references dto.references
  assert_amount_matches_charge fetch dto.references.job_id dto.grand_total
  number ← payment_number dto.payments_id
  draw_and_save dto now r number

abbrev pub existing_payment : Option ℕ → Db → Option Payment
existing_payment none db = none
existing_payment (some job) db = find_payment_by_job job db

unfoldable pub create_payment_body : (Text → Option ℕ) → ℕ → CreatePaymentsDto → Action Payment
create_payment_body fetch now dto = do
  existing ← gets (existing_payment dto.references.job_id)
  elim existing [ none ↦ create_new fetch now dto | some p ↦ pure p ]

-- `PaymentsService.create`
unfoldable pub create_payment : (Text → Option ℕ) → ℕ → CreatePaymentsDto → Action Payment
create_payment fetch now dto db = hide_other_errors (create_payment_body fetch now dto db)

unfoldable pub find_one_payment : ℕ → Action Payment
find_one_payment id = do or_throw (← gets (active_payment id)) (Error.not_found Resource.payment)

unfoldable pub remove_payment : ℕ → Action (Unit {0})
remove_payment id = do
  payment ← find_one_payment id
  update_payment (record payment { is_deleted = true })
