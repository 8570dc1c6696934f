-- ===== src/Submission/Queued.antt =====
-- What filing a result and a lane change leave in the outbox.
use mathlib.Core.List.{Memᴰ}
use ivis_backend.Base.{
  ℕ, Bool, true, false, Option, none, some, [], ◌∷◌, ◌++◌, Text, trim, to_upper, ◌≡◌, ◌⊎◌, inl, inr,
  refl, ap, ◌∙◌, arith, if◌then◌else◌, update_first-Memᴰ, append_one-Memᴰ,
}
use ivis_backend.Store.Entities.{Job, Db}
use ivis_backend.Outbox.Row.{EventType, TajdeedOutbox}
use ivis_backend.Outbox.Dao.{Table, has_id, find_by_id, patch, save}
use ivis_backend.Outbox.Backoff.{is_branch_writable}
use ivis_backend.Outbox.Service.{EnqueueInput, queued_row, existing_result, enqueue}
use ivis_backend.Submission.Mapper.{InspectionResultPayload}
use ivis_backend.Submission.Filing.{
  Directory, LaneOccupancy, LaneEntry, queue_inspection_result, push_lane_change, result_event,
  lane_event,
}

-- What stands in the outbox after an event was queued stood there before, or is that event.
save-Memᴰ :
    (row : TajdeedOutbox) (t : Table) {q : TajdeedOutbox}
    → Memᴰ q (save row t)
    → Memᴰ q t ⊎ (q ≡ row)
save-Memᴰ row t {q} m = go (find_by_id row.id t) m
  where
    go :
        (o : Option TajdeedOutbox)
        → Memᴰ q
            (elim o as (λ _. Table) [ some _ ↦ patch row.id (λ _. row) t | none ↦ t ++ row ∷ [] ])
        → Memᴰ q t ⊎ (q ≡ row)
    go (some old) there = update_first-Memᴰ (has_id row.id) row t there
    go none there = append_one-Memᴰ t row there

enqueue-Memᴰ :
    (production : Bool) (now : ℕ) (fresh : ℕ × ℕ) (input : EnqueueInput) (t : Table)
    (q : TajdeedOutbox)
    → Memᴰ q (enqueue production now fresh input t).1
    → Memᴰ q t ⊎ ((q.event_type ≡ input.event_type) × (q.payload ≡ input.payload))
unfolding enqueue
enqueue-Memᴰ production now fresh input t q m =
    let branch = to_upper (trim input.branch_code) in
    let row = queued_row now fresh input branch in
    go (is_branch_writable production branch) (existing_result input.event_type input.job_id t) m
  where
    go :
        (writable : Bool) (o : Option TajdeedOutbox)
        → Memᴰ q
            (if writable
              then elim o as (λ _. Option TajdeedOutbox × Table) [
                | some existing ↦ (some existing, t)
                | none ↦
                    let row = queued_row now fresh input (to_upper (trim input.branch_code)) in
                    (some row, save row t)
              ]
              else (none, t)).1
        → Memᴰ q t ⊎ ((q.event_type ≡ input.event_type) × (q.payload ≡ input.payload))
    go false o there = inl there
    go true (some existing) there = inl there
    go true none there =
        elim (save-Memᴰ (queued_row now fresh input (to_upper (trim input.branch_code))) t there) [
          | inl old ↦ inl old
          | inr new ↦ inr (
            ap (λ (r : TajdeedOutbox). r.event_type) new,
            ap (λ (r : TajdeedOutbox). r.payload) new,
          )
        ]

pub queue_inspection_result-Memᴰ :
    (encode : InspectionResultPayload → Text) (production : Bool) (now : ℕ) (fresh : ℕ × ℕ)
    (d : Directory) (db : Db) (job : Job) (t : Table) (q : TajdeedOutbox)
    → Memᴰ q (queue_inspection_result encode production now fresh d db job t)
    → Memᴰ q t
      ⊎ ((input : EnqueueInput) × (result_event encode d db job ≡ some input)
          × (q.payload ≡ input.payload))
unfolding queue_inspection_result
queue_inspection_result-Memᴰ encode production now fresh d db job t q m =
    go (result_event encode d db job) refl m
  where
    go :
        (o : Option EnqueueInput)
        → result_event encode d db job ≡ o
        → Memᴰ q (elim o as (λ _. Table) [
          | none ↦ t
          | some input ↦ (enqueue production now fresh input t).1
        ])
        → Memᴰ q t
          ⊎ ((input : EnqueueInput) × (result_event encode d db job ≡ some input)
              × (q.payload ≡ input.payload))
    go none e there = inl there
    go (some input) e there = elim (enqueue-Memᴰ production now fresh input t q there) [
      | inl old ↦ inl old
      | inr new ↦ inr (input, e, new.1)
    ]

lane_event-type :
    (encode_lane : LaneEntry → Text) (now : ℕ) (d : Directory) (db : Db) (job : Job)
    (status : LaneOccupancy) {input : EnqueueInput}
    → lane_event encode_lane now d db job status ≡ some input
    → input.event_type ≡ EventType.lane_status
unfolding lane_event
lane_event-type encode_lane now d db job status e = ground arith

pub push_lane_change-Memᴰ :
    (encode_lane : LaneEntry → Text) (production : Bool) (now : ℕ) (fresh : ℕ × ℕ) (d : Directory)
    (db : Db) (job : Job) (status : LaneOccupancy) (t : Table) (q : TajdeedOutbox)
    → Memᴰ q (push_lane_change encode_lane production now fresh d db job status t)
    → Memᴰ q t ⊎ (q.event_type ≡ EventType.lane_status)
unfolding push_lane_change
push_lane_change-Memᴰ encode_lane production now fresh d db job status t q m =
    go (lane_event encode_lane now d db job status) refl m
  where
    go :
        (o : Option EnqueueInput)
        → lane_event encode_lane now d db job status ≡ o
        → Memᴰ q (elim o as (λ _. Table) [
          | none ↦ t
          | some input ↦ (enqueue production now fresh input t).1
        ])
        → Memᴰ q t ⊎ (q.event_type ≡ EventType.lane_status)
    go none e there = inl there
    go (some input) e there = elim (enqueue-Memᴰ production now fresh input t q there) [
      | inl old ↦ inl old
      | inr new ↦ inr (new.0 ∙ lane_event-type encode_lane now d db job status e)
    ]
