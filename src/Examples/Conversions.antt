-- ===== src/Examples/Conversions.antt =====
-- The theorems on jobs, applied to the example centre.
use ivis_backend.Base.{true, ℕ, ◌≡◌, refl, Option, none, some, [], ◌∷◌, trim}
use ivis_backend.Store.Entities.{AppointmentStatus, AnprCapture, Appointment, Job, Db}
use ivis_backend.Store.Action.{Error, Reason, ok, err}
use ivis_backend.Store.Dao.{active_appointment}
use ivis_backend.Jobs.Service.{CreateJobDto, create, create_body, validate_job_references}
use ivis_backend.Jobs.Conversion.{
  Assignment, create_from_appointment, convertible, resolve_vehicle_record, resolve_assignment,
  is_expired, link_existing_payment_to_job,
}
use ivis_backend.Jobs.Guards.{Ready}
use ivis_backend.Jobs.Convert.{Filed, create_from_appointment-Filed, create_from_appointment-once}
use ivis_backend.Examples.Shop.{walk_in, shop}

abbrev request : CreateJobDto
request = record {
  job_id = none;
  appointment_id = some 3;
  status = none;
  customer_id = 1;
  vehicle_record_id = 2;
  anpr_capture_id = some 4;
  centre_id = some 6;
  line_id = some 7;
  assigned_user_id = some 8;
  admin_pc_id = none;
  camera_id = none;
}

abbrev assigned : Option Assignment
assigned = some (record { line_id = 7; assigned_user_id = 8 })

-- The job and the state of the conversion.
abbrev converted_job : Job
converted_job = record walk_in {
  id = 100;
  job_id = 2;
  appointment_id = some 3;
  anpr_capture_id = some 4;
}

abbrev after_conversion : Db
after_conversion = (create_from_appointment 3 none assigned 86400000 shop).1

conversion :
    create_from_appointment 3 none assigned 86400000 shop ≡ (ok converted_job, after_conversion)
unfolding create_from_appointment create create_body validate_job_references convertible is_expired
    resolve_vehicle_record resolve_assignment link_existing_payment_to_job trim
conversion = refl

create_from_appointment-Filed_example :
    (a : Appointment) × (customer : ℕ) × (capture : AnprCapture) × (active_appointment 3 shop
      ≡ some a)
    × Ready a 86400000 shop customer capture
    × Filed a assigned customer capture shop after_conversion converted_job
    × (active_appointment 3 after_conversion
        ≡ some (record a { status = AppointmentStatus.converted }))
create_from_appointment-Filed_example =
    create_from_appointment-Filed 3 none assigned 86400000 shop after_conversion converted_job
      (refl, tt) conversion

create_from_appointment-once_example :
    create_from_appointment 3 none none 86500000 after_conversion
    ≡ (err (Error.bad_request Reason.already_converted), after_conversion)
create_from_appointment-once_example =
    create_from_appointment-once 3 none none assigned none 86400000 86500000 shop after_conversion
      converted_job (refl, tt) conversion

abbrev removed : Db
removed = record shop { jobs = record walk_in { is_deleted = true } ∷ [] }
