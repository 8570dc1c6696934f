-- ===== src/Submission/Told.antt =====
-- A submission that goes through: the job it leaves, and what ROP and the provider are told of it.
use mathlib.Core.List.{Memᴰ}
use ivis_backend.Base.{◌⊎◌, inl, inr, ℕ, true, none, ◌∷◌, text, ◌≡◌, refl, ap, ◌∙◌, if◌then◌else◌}
use ivis_backend.Store.Entities.{Job, Db}
use ivis_backend.Store.Dao.{vehicle_record_of}
use ivis_backend.Store.Action.{Error, Resource, Reason, ok, err}
use ivis_backend.Store.Runs.{or_throw_ok}
use ivis_backend.Outbox.Row.{EventType, TajdeedOutbox}
use ivis_backend.Submission.Queued.{queue_inspection_result-Memᴰ, push_lane_change-Memᴰ}
use ivis_backend.Outbox.Dispatcher.{is_same_oman_day}
use ivis_backend.Exchange.Watcher.{save_job}
use ivis_backend.Submission.Mapper.{InspectionResultPayload, ProviderVerdict, provider_verdict}
use ivis_backend.Submission.Filing.{LaneOccupancy, queue_inspection_result, push_lane_change}
use ivis_backend.Submission.Update.{validate_update, merge, update}
use ivis_backend.Submission.Updated.{IsOwnRow, update_ok}
use ivis_backend.Submission.Verdicts.{result_event-Files}
use ivis_backend.Submission.Service.{
  Backend, Call, plate_or_empty, or_passed, completed_now, submit_inspection, announce,
  submit_found, submit_job,
}

completed_valid : (now : ℕ) (db : Db) → validate_update (completed_now now) db ≡ (ok tt, db)
unfolding validate_update
completed_valid now db = refl

-- The backend that a submission leaves.
abbrev pub after_submission : Call → Job → Backend → Backend
after_submission call job b =
    let done = merge (completed_now call.now) in
    let db = save_job job.id done b.db in
    record {
      db = db;
      outbox =
          push_lane_change call.encode_lane call.production call.now call.fresh_lane call.directory
            db (done job) LaneOccupancy.idle
            (queue_inspection_result call.encode call.production call.now call.fresh_result
              call.directory db job b.outbox);
      rop =
          (
            plate_or_empty (vehicle_record_of job.vehicle_record_id b.db),
            or_passed job.overall_result,
          )
          ∷ b.rop;
    }

submit_job_run :
    (call : Call) (created_at : Job → ℕ) (id : ℕ) (b : Backend) (job : Job)
    → IsOwnRow id b.db job
    → is_same_oman_day (created_at job) call.now ≡ true
    → submit_job call created_at id b
      ≡ (ok (merge (completed_now call.now) job), after_submission call job b)
unfolding submit_job
submit_job_run call created_at id b job own today =
    let told = submit_inspection job b in
    ap (λ r. submit_found call id created_at r b) (or_throw_ok (Error.not_found Resource.job) own.0)
    ∙ ap
        (λ c.
          if c
          then announce call job (update id (completed_now call.now) b.db) told
          else (err (Error.bad_request Reason.submitted_late), b))
        today
    ∙ ap (λ r. announce call job r told)
        (update_ok id (completed_now call.now) b.db job own (completed_valid call.now b.db))

-- A job that is submitted on the day of its creation without a result, where the row with its id is its
-- own, is completed; ROP is told that it passed, and every inspection result that stands in the outbox
-- afterwards and did not before says REJECTED.
pub submit_job-unjudged :
    (call : Call) (created_at : Job → ℕ) (id : ℕ) (b : Backend) (job : Job)
    → IsOwnRow id b.db job
    → is_same_oman_day (created_at job) call.now ≡ true
    → job.overall_result ≡ none
    → (after : Backend) × (submit_job call created_at id b
        ≡ (ok (merge (completed_now call.now) job), after))
      × (after.rop
          ≡ (plate_or_empty (vehicle_record_of job.vehicle_record_id b.db), text "Passed") ∷ b.rop)
      × ((row : TajdeedOutbox)
          → Memᴰ row after.outbox
          → row.event_type ≡ EventType.inspection_result
          → Memᴰ row b.outbox
            ⊎ ((payload : InspectionResultPayload) × (row.payload ≡ call.encode payload)
                × (payload.overall_result ≡ ProviderVerdict.rejected)))
submit_job-unjudged call created_at id b job own today unjudged = (
  after_submission call job b,
  submit_job_run call created_at id b job own today,
  ap (λ o. (plate_or_empty (vehicle_record_of job.vehicle_record_id b.db), or_passed o) ∷ b.rop)
      unjudged,
  λ row m result.
      let done = merge (completed_now call.now) in
      let db = save_job job.id done b.db in
      let filed =
        queue_inspection_result call.encode call.production call.now call.fresh_result
          call.directory db job b.outbox in
      elim (push_lane_change-Memᴰ call.encode_lane call.production call.now call.fresh_lane
        call.directory db (done job) LaneOccupancy.idle filed row m) [
          | inr lane ↦ absurd cc
          | inl before ↦
              elim (queue_inspection_result-Memᴰ call.encode call.production call.now
                call.fresh_result call.directory db job b.outbox row before) [
                  | inl old ↦ inl old
                  | inr (input, e, same) ↦
                      let f = result_event-Files call.encode call.directory db job input e in
                      inr (f.payload, same ∙ f.encoded, f.judged ∙ ap provider_verdict unjudged)
                ]
        ],
)
