-- ===== src/Submission/Update.antt =====
-- `update` and `redoJob` of jobs/services/job.service.ts. A column that is posted as null is not
-- modelled; audit snapshots are left out.
use ivis_backend.Base.{ℕ, Option, none, some, Text, text, is_some, or_else}
use ivis_backend.Store.Entities.{Job, Db}
use ivis_backend.Store.Action.{Action, Error, Resource, Result, ok, err, modify, ◌>>=◌, ◌>>◌}
use ivis_backend.Store.Dao.{active_customer, active_vehicle_record}
use ivis_backend.Pricing.{find_one}
use ivis_backend.Jobs.Service.{require_row, listed, reload}
use ivis_backend.Exchange.Watcher.{save_job}

-- UpdateJobDto without the columns of the invoice, which the model of a job leaves out.
pub record UpdateJobDto : Type 0 where
  pub appointment_id : Option ℕ
  pub status : Option Text
  pub customer_id : Option ℕ
  pub vehicle_record_id : Option ℕ
  pub anpr_capture_id : Option ℕ
  pub centre_id : Option ℕ
  pub line_id : Option ℕ
  pub assigned_user_id : Option ℕ
  pub admin_pc_id : Option ℕ
  pub camera_id : Option ℕ
  pub overall_result : Option Text
  pub infile_name : Option Text
  pub infile_path : Option Text
  pub outfile_name : Option Text
  pub outfile_path : Option Text
  pub started_at : Option ℕ
  pub completed_at : Option ℕ

abbrev pub no_update : UpdateJobDto
no_update = record {
  appointment_id = none;
  status = none;
  customer_id = none;
  vehicle_record_id = none;
  anpr_capture_id = none;
  centre_id = none;
  line_id = none;
  assigned_user_id = none;
  admin_pc_id = none;
  camera_id = none;
  overall_result = none;
  infile_name = none;
  infile_path = none;
  outfile_name = none;
  outfile_path = none;
  started_at = none;
  completed_at = none;
}

unfoldable pub validate_update : UpdateJobDto → Action (Unit {0})
validate_update dto = do
  require_row (λ id db. is_some (active_customer id db)) Resource.customer dto.customer_id
  require_row (λ id db. is_some (active_vehicle_record id db)) Resource.vehicle_record
      dto.vehicle_record_id
  require_row (listed (λ db. db.anpr_captures)) Resource.anpr_capture dto.anpr_capture_id
  require_row (listed (λ db. db.centres)) Resource.centre dto.centre_id
  require_row (listed (λ db. db.lines)) Resource.line dto.line_id
  require_row (listed (λ db. db.admin_pcs)) Resource.admin_pc dto.admin_pc_id
  require_row (listed (λ db. db.cameras)) Resource.camera dto.camera_id

-- A posted value replaces the one that stands.
abbrev pub given_text : Option Text → Text → Text
given_text none old = old
given_text (some new) old = new

-- The row that `save` writes of `jobDao.merge(job, …)`. The job was loaded with its relations, and TypeORM
-- takes the key of a relation that is loaded from the relation, whatever the column was set to: a
-- reference that the job has stays, and only a missing one is filled.
abbrev pub merge : UpdateJobDto → Job → Job
merge dto j = record j {
  appointment_id = or_else j.appointment_id dto.appointment_id;
  status = given_text dto.status j.status;
  anpr_capture_id = or_else j.anpr_capture_id dto.anpr_capture_id;
  centre_id = or_else j.centre_id dto.centre_id;
  line_id = or_else j.line_id dto.line_id;
  assigned_user_id = or_else dto.assigned_user_id j.assigned_user_id;
  admin_pc_id = or_else j.admin_pc_id dto.admin_pc_id;
  camera_id = or_else j.camera_id dto.camera_id;
  overall_result = or_else dto.overall_result j.overall_result;
  infile_name = or_else dto.infile_name j.infile_name;
  infile_path = or_else dto.infile_path j.infile_path;
  outfile_name = or_else dto.outfile_name j.outfile_name;
  outfile_path = or_else dto.outfile_path j.outfile_path;
  started_at = or_else dto.started_at j.started_at;
  completed_at = or_else dto.completed_at j.completed_at;
}

-- The `catch` of `update` passes on a missing row only.
abbrev pub hide_all_but_missing : {A : Type 0} → Result A × Db → Result A × Db
hide_all_but_missing (ok a, db) = (ok a, db)
hide_all_but_missing (err (Error.not_found r), db) = (err (Error.not_found r), db)
hide_all_but_missing (err (Error.duplicate r), db) = (err Error.database, db)
hide_all_but_missing (err (Error.bad_request r), db) = (err Error.database, db)
hide_all_but_missing (err Error.database, db) = (err Error.database, db)

abbrev pub save_merged : UpdateJobDto → Job → Action Job
save_merged dto job = do modify (save_job job.id (merge dto)); reload (merge dto job)

unfoldable pub update_body : ℕ → UpdateJobDto → Action Job
unfolding validate_update
update_body id dto = do job ← find_one id; validate_update dto; save_merged dto job

unfoldable pub update : ℕ → UpdateJobDto → Action Job
unfolding update_body
update id dto db = hide_all_but_missing (update_body id dto db)

unfoldable pub redo_job : ℕ → Action Job
unfolding update
redo_job id = update id (record no_update { overall_result = some (text "Redo") })
