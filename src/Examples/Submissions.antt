-- ===== src/Examples/Submissions.antt =====
-- A submission on concrete data.
use mathlib.Core.List.{Memᴰ}
use ivis_backend.Base.{
  ◌⊎◌, ℕ, ◌<◌, true, some, none, [], ◌∷◌, ◌++◌, Text, text, trim, is_space, to_upper, upper_code,
  ◌≡◌, ◌≢◌, ◌↔◌, refl, arith,
}
use ivis_backend.Store.Entities.{Job}
use ivis_backend.Store.Dao.{vehicle_record_of}
use ivis_backend.Store.Action.{ok}
use ivis_backend.Outbox.Row.{EventType, TajdeedOutbox}
use ivis_backend.Outbox.Service.{EnqueueInput}
use ivis_backend.Outbox.LiveUnique.{HasOneLive}
use ivis_backend.Outbox.Dispatcher.{is_same_oman_day}
use ivis_backend.Submission.Clock.{Meridiem, to_seconds, pad}
use ivis_backend.Submission.Hours.{rig_time, hour_24, to_seconds-rig_time}
use ivis_backend.Submission.Readings.{normalize_plate}
use ivis_backend.Submission.Mapper.{
  MapperInput, build_inspection_result_payload, InspectionResultPayload, ProviderVerdict,
}
use ivis_backend.Submission.Filing.{Directory, LaneEntry, result_event}
use ivis_backend.Submission.Verdicts.{IsBooked, result_event-verdict}
use ivis_backend.Submission.Update.{merge}
use ivis_backend.Submission.Service.{Backend, Call, completed_now, plate_or_empty, submit_job}
use ivis_backend.Submission.OneLive.{submit_job-HasOneLive}
use ivis_backend.Submission.Told.{submit_job-unjudged}
use ivis_backend.Examples.Shop.{walk_in, shop}

to_seconds-rig_time_example :
    (to_seconds (some (rig_time 12 b'4' b'5' Meridiem.am))
      ≡ some (pad (hour_24 12 Meridiem.am) ++ 58 ∷ b'4' ∷ b'5' ∷ text ":00"))
    × (hour_24 12 Meridiem.am < 24)
to_seconds-rig_time_example =
    to_seconds-rig_time 12 b'4' b'5' Meridiem.am (omega arith) (omega arith) refl refl

-- A booked job with a result file and no verdict yet.
abbrev booked_job : Job
booked_job = record walk_in {
  id = 12;
  job_id = 3;
  status = text "In Progress";
  appointment_id = some 3;
  test_results = some ((text "FlatResults", []) ∷ []);
}

abbrev directory : Directory
directory = record {
  appointments =
      record { id = 3; provider_booking_id = some (text " B1"); assigned_lane = none } ∷ [];
  centres = record { id = 6; provider_branch_code = some (text "test") } ∷ [];
  lines = record { id = 7; provider_lane_id = some (text "L1"); centre_id = some 6 } ∷ [];
  bookings = [];
}

abbrev backend : Backend
backend = record { db = record shop { jobs = walk_in ∷ booked_job ∷ [] }; outbox = []; rop = [] }

abbrev verdict_byte : ProviderVerdict → Text
verdict_byte ProviderVerdict.approved = text "A"
verdict_byte ProviderVerdict.rejected = text "R"

abbrev encode : InspectionResultPayload → Text
encode p = verdict_byte p.overall_result

abbrev encode_lane : LaneEntry → Text
encode_lane e = e.lane_id

abbrev call : Call
call = record {
  production = true;
  now = 86400000;
  fresh_result = (200, 300);
  fresh_lane = (201, 301);
  directory = directory;
  encode = encode;
  encode_lane = encode_lane;
}

abbrev at_noon : Job → ℕ
at_noon j = 86400005

submit_job-HasOneLive_example : HasOneLive (submit_job call at_noon 12 backend).1.outbox
submit_job-HasOneLive_example =
    submit_job-HasOneLive call at_noon 12 backend refl refl refl (λ job. ground arith)

abbrev filed : EnqueueInput
filed = record {
  event_type = EventType.inspection_result;
  branch_code = text "test";
  payload = text "R";
  job_id = some 12;
  centre_id = some 6;
  line_id = some 7;
}

filed_now : result_event encode directory backend.db booked_job ≡ some filed
unfolding result_event build_inspection_result_payload normalize_plate trim is_space to_upper
    upper_code
filed_now = refl

result_event-verdict_example :
    (filed.event_type ≡ EventType.inspection_result)
    × (filed.job_id ≡ some booked_job.id)
    × IsBooked directory booked_job
    × (booked_job.test_results ≢ none)
    × ((payload : InspectionResultPayload) × (filed.payload ≡ encode payload)
        × ((payload.overall_result ≡ ProviderVerdict.approved)
            ↔ (booked_job.overall_result ≡ some (text "Passed"))))
result_event-verdict_example =
    result_event-verdict encode directory backend.db booked_job filed filed_now

submit_job-unjudged_example :
    (after : Backend) × (submit_job call at_noon 12 backend
      ≡ (ok (merge (completed_now call.now) booked_job), after))
    × (after.rop
        ≡ (
          plate_or_empty (vehicle_record_of booked_job.vehicle_record_id backend.db),
          text "Passed",
        )
          ∷ backend.rop)
    × ((row : TajdeedOutbox)
        → Memᴰ row after.outbox
        → row.event_type ≡ EventType.inspection_result
        → Memᴰ row backend.outbox
          ⊎ ((payload : InspectionResultPayload) × (row.payload ≡ call.encode payload)
              × (payload.overall_result ≡ ProviderVerdict.rejected)))
unfolding is_same_oman_day
submit_job-unjudged_example =
    submit_job-unjudged call at_noon 12 backend booked_job (refl, refl) refl refl

abbrev mapper_input : MapperInput
mapper_input = record {
  sections = [];
  overall_result = some (text "Failed");
  plate_number = text "1234 A";
  plate_type = none;
  lane_id = none;
  job_number = 1;
}
