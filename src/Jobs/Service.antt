-- ===== src/Jobs/Service.antt =====
-- `create` of jobs/services/job.service.ts and the checks that it makes.
use ivis_backend.Base.{
  ℕ, zero, suc, ◌==◌, Bool, false, not, Option, none, some, List, [], ◌∷◌, Text, text, any, is_some,
}
use ivis_backend.Store.Entities.{Job, Db}
use ivis_backend.Store.Action.{
  Action, Error, Resource, pure, gets, ◌>>=◌, ◌>>◌, throw_if, hide_other_errors,
  generate_snowflake_id,
}
use ivis_backend.Store.Dao.{
  active_customer, active_vehicle_record, active_job, next_job_id, find_by_job_number, insert_job,
}

-- CreateJobDto. `assigned_user_id` is posted, and read by nothing.
pub record CreateJobDto : Type 0 where
  pub job_id : Option ℕ
  pub appointment_id : Option ℕ
  pub status : Option Text
  pub customer_id : ℕ
  pub vehicle_record_id : ℕ
  pub anpr_capture_id : Option ℕ
  pub centre_id : Option ℕ
  pub line_id : Option ℕ
  pub assigned_user_id : Option ℕ
  pub admin_pc_id : Option ℕ
  pub camera_id : Option ℕ

-- `if (id) { if (!(await dao.findActiveById(id))) throw new ResourceNotFoundException(…) }`
abbrev pub require_row : (ℕ → Db → Bool) → Resource → Option ℕ → Action (Unit {0})
require_row is_active resource none = pure tt
require_row is_active resource (some id) = do
  throw_if (not (← gets (is_active id))) (Error.not_found resource)

abbrev pub listed : (Db → List ℕ) → ℕ → Db → Bool
listed rows id db = any (λ k. k == id) (rows db)

unfoldable pub validate_job_references : CreateJobDto → Action (Unit {0})
validate_job_references dto = do
  require_row (λ id db. is_some (active_customer id db)) Resource.customer (some dto.customer_id)
  require_row (λ id db. is_some (active_vehicle_record id db)) Resource.vehicle_record
      (some dto.vehicle_record_id)
  require_row (listed (λ db. db.anpr_captures)) Resource.anpr_capture dto.anpr_capture_id
  require_row (listed (λ db. db.centres)) Resource.centre dto.centre_id
  require_row (listed (λ db. db.lines)) Resource.line dto.line_id
  require_row (listed (λ db. db.admin_pcs)) Resource.admin_pc dto.admin_pc_id
  require_row (listed (λ db. db.cameras)) Resource.camera dto.camera_id

-- A number of 0 is falsy, so it is replaced like a missing one.
abbrev pub job_number : Option ℕ → Action ℕ
job_number none = gets next_job_id
job_number (some zero) = gets next_job_id
job_number (some (suc n)) = do
  throw_if (is_some (← gets (find_by_job_number (suc n)))) (Error.duplicate Resource.job)
  pure (suc n)

-- `createDto.status || 'Pending'`
abbrev pub status_or_pending : Option Text → Text
status_or_pending none = text "Pending"
status_or_pending (some []) = text "Pending"
status_or_pending (some (c ∷ s)) = c ∷ s

abbrev pub new_job : CreateJobDto → ℕ → ℕ → Job
new_job dto number id = record {
  id = id;
  job_id = number;
  appointment_id = dto.appointment_id;
  status = status_or_pending dto.status;
  customer_id = dto.customer_id;
  vehicle_record_id = dto.vehicle_record_id;
  anpr_capture_id = dto.anpr_capture_id;
  centre_id = dto.centre_id;
  line_id = dto.line_id;
  assigned_user_id = none;
  admin_pc_id = dto.admin_pc_id;
  camera_id = dto.camera_id;
  charge_id = none;
  test_results = none;
  overall_result = none;
  infile_name = none;
  infile_path = none;
  outfile_name = none;
  outfile_path = none;
  started_at = none;
  completed_at = none;
  is_deleted = false;
}

-- `(await findActiveById(saved.id)) ?? saved`
abbrev pub reload : Job → Action Job
reload saved = do
  found ← gets (active_job saved.id)
  elim found [ none ↦ pure saved | some job ↦ pure job ]

abbrev pub save_new : CreateJobDto → ℕ → Action Job
save_new dto number = do
  id ← generate_snowflake_id
  insert_job (new_job dto number id)
  reload (new_job dto number id)

-- The body of `create`, before its `catch`.
unfoldable pub create_body : CreateJobDto → Action Job
create_body dto = do
  validate_job_references dto
  number ← job_number dto.job_id
  save_new dto number

unfoldable pub create : CreateJobDto → Action Job
create dto db = hide_other_errors (create_body dto db)
