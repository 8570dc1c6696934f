-- ===== src/Submission/OneLive.antt =====
-- Starting and submitting jobs against the outbox.
use ivis_backend.Base.{
  ℕ, ◌==◌, Bool, true, false, Option, none, some, [], ◌∷◌, ◌++◌, trim, to_upper, if◌then◌else◌, ◌≡◌,
  arith, Bool-cases, Option-cases, inl, inr,
}
use ivis_backend.Store.Entities.{Job, Db}
use ivis_backend.Store.Action.{Error, Reason, Result, ok, err}
use ivis_backend.Pricing.{find_one}
use ivis_backend.Outbox.Row.{TajdeedOutbox}
use ivis_backend.Outbox.Dao.{Table, find_by_id, save}
use ivis_backend.Outbox.Backoff.{is_branch_writable}
use ivis_backend.Outbox.Service.{EnqueueInput, existing_result, enqueue, queued_row}
use ivis_backend.Outbox.LiveUnique.{HasOneLive, enqueue-HasOneLive}
use ivis_backend.Outbox.Dispatcher.{is_same_oman_day}
use ivis_backend.Submission.Update.{update}
use ivis_backend.Submission.Filing.{
  LaneOccupancy, queue_inspection_result, push_lane_change, result_event, lane_event,
}
use ivis_backend.Submission.Service.{
  Backend, Call, announce, submit_found, submit_job, completed_now, submit_inspection,
}

find-append-none :
    (id : ℕ) (t : Table) (row : TajdeedOutbox)
    → (row.id == id) ≡ false
    → find_by_id id t ≡ none
    → find_by_id id (t ++ row ∷ []) ≡ none
find-append-none id [] row other unused = ground arith
find-append-none id (r ∷ t) row other unused = ground (arith, find-append-none id t row other)

-- An unused id stays unused when an event is queued under another unused id.
enqueue_fresh :
    (production : Bool) (now : ℕ) (fresh : ℕ × ℕ) (input : EnqueueInput) (t : Table) (id : ℕ)
    → find_by_id fresh.0 t ≡ none
    → (fresh.0 == id) ≡ false
    → find_by_id id t ≡ none
    → find_by_id id (enqueue production now fresh input t).1 ≡ none
unfolding enqueue
enqueue_fresh production now fresh input t id new other unused =
    let branch_code = to_upper (trim input.branch_code) in
    let row = queued_row now fresh input branch_code in
    elim (Bool-cases (is_branch_writable production branch_code)) [
      | inr blocked ↦ rw blocked unused
      | inl writable ↦ elim (Option-cases (existing_result input.event_type input.job_id t)) [
        | inr (q, there) ↦ rw (writable, there) unused
        | inl room ↦ rw (writable, room, new, save) (find-append-none id t row other unused)
      ]
    ]

module _ (call : Call) where
  -- What the call may do to the outbox keeps the invariant, and the id of the lane event unused.
  queue-HasOneLive :
      (db : Db) (job : Job) (t : Table)
      → find_by_id call.fresh_result.0 t ≡ none
      → HasOneLive t
      → HasOneLive (
          queue_inspection_result call.encode call.production call.now call.fresh_result
            call.directory db job t)
  unfolding queue_inspection_result
  queue-HasOneLive db job t unused h = go (result_event call.encode call.directory db job)
    where
      go :
          (e : Option EnqueueInput)
          → HasOneLive (elim e [
            | none ↦ t
            | some input ↦ (enqueue call.production call.now call.fresh_result input t).1
          ])
      go none = h
      go (some input) =
          enqueue-HasOneLive call.production call.now call.fresh_result input t unused h

  queue_fresh :
      (db : Db) (job : Job) (t : Table) (id : ℕ)
      → find_by_id call.fresh_result.0 t ≡ none
      → (call.fresh_result.0 == id) ≡ false
      → find_by_id id t ≡ none
      → find_by_id id (
          queue_inspection_result call.encode call.production call.now call.fresh_result
            call.directory db job t)
        ≡ none
  unfolding queue_inspection_result
  queue_fresh db job t id new other unused = go (result_event call.encode call.directory db job)
    where
      go :
          (e : Option EnqueueInput)
          → find_by_id id (elim e [
            | none ↦ t
            | some input ↦ (enqueue call.production call.now call.fresh_result input t).1
          ])
            ≡ none
      go none = unused
      go (some input) =
          enqueue_fresh call.production call.now call.fresh_result input t id new other unused

  lane-HasOneLive :
      (db : Db) (job : Job) (status : LaneOccupancy) (t : Table)
      → find_by_id call.fresh_lane.0 t ≡ none
      → HasOneLive t
      → HasOneLive (
          push_lane_change call.encode_lane call.production call.now call.fresh_lane call.directory
            db job status t)
  unfolding push_lane_change
  lane-HasOneLive db job status t unused h =
      go (lane_event call.encode_lane call.now call.directory db job status)
    where
      go :
          (e : Option EnqueueInput)
          → HasOneLive (elim e [
            | none ↦ t
            | some input ↦ (enqueue call.production call.now call.fresh_lane input t).1
          ])
      go none = h
      go (some input) = enqueue-HasOneLive call.production call.now call.fresh_lane input t unused h

  announce-HasOneLive :
      (job : Job) (r : Result Job × Db) (b : Backend)
      → find_by_id call.fresh_result.0 b.outbox ≡ none
      → find_by_id call.fresh_lane.0 b.outbox ≡ none
      → (call.fresh_result.0 == call.fresh_lane.0) ≡ false
      → HasOneLive b.outbox
      → HasOneLive (announce call job r b).1.outbox
  announce-HasOneLive job (err e, db) b new_result new_lane other h = h
  announce-HasOneLive job (ok submitted, db) b new_result new_lane other h =
      let queued =
        queue_inspection_result call.encode call.production call.now call.fresh_result
          call.directory db job b.outbox in
      lane-HasOneLive db submitted LaneOccupancy.idle queued
        (queue_fresh db job b.outbox call.fresh_lane.0 new_result other new_lane)
        (queue-HasOneLive db job b.outbox new_result h)

  submit_found-HasOneLive :
      (id : ℕ) (created_at : Job → ℕ) (r : Result Job × Db) (b : Backend)
      → find_by_id call.fresh_result.0 b.outbox ≡ none
      → find_by_id call.fresh_lane.0 b.outbox ≡ none
      → (call.fresh_result.0 == call.fresh_lane.0) ≡ false
      → HasOneLive b.outbox
      → HasOneLive (submit_found call id created_at r b).1.outbox
  submit_found-HasOneLive id created_at (err e, db) b new_result new_lane other h = h
  submit_found-HasOneLive id created_at (ok job, db) b new_result new_lane other h =
      go (is_same_oman_day (created_at job) call.now)
    where
      told : Backend
      told = submit_inspection job b

      go :
          (c : Bool)
          → HasOneLive
              (if c
                then announce call job (update id (completed_now call.now) b.db) told
                else (err (Error.bad_request Reason.submitted_late), b)).1.outbox
      go true =
          announce-HasOneLive job (update id (completed_now call.now) b.db)
            (submit_inspection job b) new_result new_lane other h
      go false = h

  -- A submission under two new and different event ids keeps at most one live inspection result per
  -- job, also when it is refused and when the job was submitted before.
  pub submit_job-HasOneLive :
      (created_at : Job → ℕ) (id : ℕ) (b : Backend)
      → find_by_id call.fresh_result.0 b.outbox ≡ none
      → find_by_id call.fresh_lane.0 b.outbox ≡ none
      → (call.fresh_result.0 == call.fresh_lane.0) ≡ false
      → HasOneLive b.outbox
      → HasOneLive (submit_job call created_at id b).1.outbox
  unfolding submit_job
  submit_job-HasOneLive created_at id b = submit_found-HasOneLive id created_at (find_one id b.db) b
