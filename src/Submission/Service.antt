-- ===== src/Submission/Service.antt =====
-- `submitJob` and `startJob` of jobs/services/job.service.ts. The clock is read once per call. The
-- column created_at, which the model of a job leaves out, is an argument, and so are the columns that
-- the IN file is made of.
use ivis_backend.Base.{ℕ, Bool, Option, none, some, List, [], ◌∷◌, Text, text, if◌then◌else◌}
use ivis_backend.Store.Entities.{Job, VehicleRecord, Db}
use ivis_backend.Store.Action.{Error, Reason, Result, ok, err}
use ivis_backend.Store.Dao.{vehicle_record_of}
use ivis_backend.Pricing.{find_one}
use ivis_backend.Outbox.Dao.{Table}
use ivis_backend.Outbox.Dispatcher.{is_same_oman_day}
use ivis_backend.Exchange.InFile.{Generated}
use ivis_backend.Submission.Mapper.{InspectionResultPayload}
use ivis_backend.Submission.Update.{UpdateJobDto, no_update, update}
use ivis_backend.Submission.Filing.{
  Directory, LaneOccupancy, LaneEntry, queue_inspection_result, push_lane_change,
}

-- `rop` are the submissions that the stub of the ROP client has logged, the last one first.
pub record Backend : Type 0 where
  pub db : Db
  pub outbox : Table
  pub rop : List (Text × Text)

-- What the provider needs and what is drawn during a call.
pub record Call : Type 0 where
  pub production : Bool
  pub now : ℕ
  pub fresh_result : ℕ × ℕ
  pub fresh_lane : ℕ × ℕ
  pub directory : Directory
  pub encode : InspectionResultPayload → Text
  pub encode_lane : LaneEntry → Text

abbrev pub plate_or_empty : Option VehicleRecord → Text
plate_or_empty none = []
plate_or_empty (some v) = v.plate_number

-- `job.overall_result ?? 'Passed'`
abbrev pub or_passed : Option Text → Text
or_passed none = text "Passed"
or_passed (some result) = result

-- `ropApi.submitInspection`
abbrev pub submit_inspection : Job → Backend → Backend
submit_inspection job b = record b {
  rop =
      (plate_or_empty (vehicle_record_of job.vehicle_record_id b.db), or_passed job.overall_result)
      ∷ b.rop;
}

abbrev pub completed_now : ℕ → UpdateJobDto
completed_now now = record no_update { status = some (text "Completed"); completed_at = some now }

-- What follows the update: the result of the job as it was, then the lane of the job as it is.
abbrev pub announce : Call → Job → Result Job × Db → Backend → Result Job × Backend
announce call job (err e, db) b = (err e, record b { db = db })
announce call job (ok submitted, db) b = (
  ok submitted,
  record b {
    db = db;
    outbox =
        push_lane_change call.encode_lane call.production call.now call.fresh_lane call.directory db
          submitted LaneOccupancy.idle
          (queue_inspection_result call.encode call.production call.now call.fresh_result
            call.directory db job b.outbox);
  },
)

abbrev pub submit_found : Call → ℕ → (Job → ℕ) → Result Job × Db → Backend → Result Job × Backend
submit_found call id created_at (err e, db) b = (err e, b)
submit_found call id created_at (ok job, db) b =
    let told = submit_inspection job b in
    if is_same_oman_day (created_at job) call.now
    then announce call job (update id (completed_now call.now) b.db) told
    else (err (Error.bad_request Reason.submitted_late), b)

unfoldable pub submit_job : Call → (Job → ℕ) → ℕ → Backend → Result Job × Backend
submit_job call created_at id b = submit_found call id created_at (find_one id b.db) b

abbrev pub started_now : ℕ → Generated → UpdateJobDto
started_now now file = record no_update {
  status = some (text "In Progress");
  infile_name = some file.name;
  infile_path = some file.path;
  started_at = some now;
}

abbrev pub occupy : Call → Result Job × Db → Backend → Result Job × Backend
occupy call (err e, db) b = (err e, record b { db = db })
occupy call (ok started, db) b = (
  ok started,
  record b {
    db = db;
    outbox =
        push_lane_change call.encode_lane call.production call.now call.fresh_lane call.directory db
          started LaneOccupancy.occupied b.outbox;
  },
)

abbrev pub start_found :
    Call → ℕ → (Job → Generated) → Result Job × Db → Backend → Result Job × Backend
start_found call id generate (err e, db) b = (err e, b)
start_found call id generate (ok job, db) b =
    occupy call (update id (started_now call.now (generate job)) b.db) b

-- `generate` is `generate_for_job` of Exchange.InFile on the columns of the job's relations.
unfoldable pub start_job : Call → (Job → Generated) → ℕ → Backend → Result Job × Backend
start_job call generate id b = start_found call id generate (find_one id b.db) b
