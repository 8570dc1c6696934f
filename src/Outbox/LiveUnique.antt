-- ===== src/Outbox/LiveUnique.antt =====
-- One live inspection result per job: what each operation of the outbox does to that invariant.
use ivis_backend.Base.{
  ℕ, ◌+◌, ◌≤◌, ◌≡◌, refl, Bool, true, false, Option, none, some, List, [], ◌∷◌, arith, ◌⊎◌, one_if,
  Bool-cases, Option-cases, inl, inr, to_upper, trim, ◌&&◌, some_is, first-sort_by-keep-none,
  tally_mono,
}
use ivis_backend.Outbox.Row.{EventType, DeliveryStatus, TajdeedOutbox, is_inspection_result}
use ivis_backend.Outbox.Dao.{
  Table, find_by_id, patch, is_live_result, find_due_for_send, claimed, created_after,
  blocks_enqueue, find_by_job_and_type,
}
use ivis_backend.Outbox.Backoff.{next_retry_delay_ms, is_branch_writable}
use ivis_backend.Outbox.Service.{EnqueueInput, existing_result, enqueue, queued_row}
use ivis_backend.Outbox.Provider.{Provider, PushOutcome, push_event}
use ivis_backend.Outbox.Dispatcher.{
  Config, is_off, drain_batch, settle, send, send_all, drain, envelope_of,
}
use ivis_backend.Outbox.Live.{
  live_count, live_count-save, claim_for_send-cases, live_count-patch_twice,
}

abbrev pub HasOneLive : Table → Type 0
HasOneLive t = (job : ℕ) → live_count job t ≤ 1

settle_liveness :
    (job now at : ℕ) (row : TajdeedOutbox) (o : PushOutcome) (r : TajdeedOutbox)
    → r.delivery_status ≡ DeliveryStatus.pending
    → one_if (is_live_result job (settle now row o (claimed at r))) ≤ one_if (is_live_result job r)
unfolding settle
settle_liveness job now at row (PushOutcome.delivered d x) r h = ground arith
settle_liveness job now at row (PushOutcome.refused true e x) r h = ground arith
settle_liveness job now at row (PushOutcome.refused false e x) r h = ground arith

-- A send changes nothing, or settles the Pending row that it has claimed.
pub send-cases :
    (config : Config) (provider : Provider) (now : ℕ) (row : TajdeedOutbox) (t : Table)
    → let at = now + next_retry_delay_ms (row.attempt_count + 1) in
      let outcome = push_event config.has_key provider (envelope_of now row) in
      (send config provider now row t ≡ t)
      ⊎ ((r : TajdeedOutbox) × (find_by_id row.id t ≡ some r)
          × (r.delivery_status ≡ DeliveryStatus.pending)
          × (send config provider now row t
              ≡ patch row.id (settle now row outcome) (patch row.id (claimed at) t)))
unfolding send
send-cases config provider now row t =
    elim (claim_for_send-cases row.id (now + next_retry_delay_ms (row.attempt_count + 1)) t) [
      | inl lost ↦ inl (rw lost)
      | inr (r, found, waiting, won) ↦ inr (r, found, waiting, rw won)
    ]

send-live_count :
    (job : ℕ) (config : Config) (provider : Provider) (now : ℕ) (row : TajdeedOutbox) (t : Table)
    → live_count job (send config provider now row t) ≤ live_count job t
send-live_count job config provider now row t =
    let at = now + next_retry_delay_ms (row.attempt_count + 1) in
    let outcome = push_event config.has_key provider (envelope_of now row) in
    elim (send-cases config provider now row t) [
      | inl same ↦ rw same (omega arith)
      | inr (r, found, waiting, won) ↦ rw won (
          live_count-patch_twice job row.id (claimed at) (settle now row outcome) t {r = r} found
            refl (settle_liveness job now at row outcome r waiting))
    ]

send_all-live_count :
    (job : ℕ) (config : Config) (provider : Provider) (now : ℕ) (rows : List TajdeedOutbox)
    (t : Table)
    → live_count job (send_all config provider now rows t) ≤ live_count job t
unfolding send_all
send_all-live_count job config provider now [] t = omega arith
send_all-live_count job config provider now (row ∷ rows) t = omega (
  arith,
  send-live_count job config provider now row t,
  send_all-live_count job config provider now rows (send config provider now row t),
)

-- Draining never makes a result live: for each job the number of live results does not grow.
pub drain-live_count :
    (job : ℕ) (config : Config) (provider : Provider) (now : ℕ) (t : Table)
    → live_count job (drain config provider now t) ≤ live_count job t
unfolding drain
drain-live_count job config provider now t = elim (Bool-cases (is_off config)) [
  | inl off ↦ rw off (omega arith)
  | inr on ↦
      rw on (send_all-live_count job config provider now (find_due_for_send now drain_batch t) t)
]

blocks_live :
    (job : ℕ) (r : TajdeedOutbox)
    → is_live_result job r ≡ true
    → blocks_enqueue job EventType.inspection_result r ≡ true
blocks_live job r h = ground arith

find_by_job_and_type-none :
    (job : ℕ) (t : Table)
    → find_by_job_and_type job EventType.inspection_result t ≡ none
    → live_count job t ≡ 0
unfolding find_by_job_and_type
find_by_job_and_type-none job t e = omega (
  arith,
  first-sort_by-keep-none created_after (blocks_enqueue job EventType.inspection_result) t e,
  tally_mono (is_live_result job) (blocks_enqueue job EventType.inspection_result) (blocks_live job)
      t,
)

-- The guard of `enqueue` leaves room for the row that it lets through.
existing_result_room :
    (job : ℕ) (type : EventType) (owner : Option ℕ) (t : Table)
    → existing_result type owner t ≡ none
    → live_count job t ≤ 1
    → live_count job t + one_if (some_is owner job && (is_inspection_result type && true)) ≤ 1
unfolding existing_result
existing_result_room job type none t e h = omega arith
existing_result_room job EventType.lane_status (some j) t e h = ground arith
existing_result_room job EventType.inspection_result (some j) t e h =
    ground (arith, find_by_job_and_type-none j t e)

-- If every job has at most one live inspection result (Pending, Accepted), it still has after any
-- event was queued under a new id.
pub enqueue-HasOneLive :
    (production : Bool) (now : ℕ) (fresh : ℕ × ℕ) (input : EnqueueInput) (t : Table)
    → find_by_id fresh.0 t ≡ none
    → HasOneLive t
    → HasOneLive (enqueue production now fresh input t).1
unfolding enqueue
enqueue-HasOneLive production now fresh input t new h job =
    let branch_code = to_upper (trim input.branch_code) in
    elim (Bool-cases (is_branch_writable production branch_code)) [
      | inr blocked ↦ rw blocked (h job)
      | inl writable ↦ elim (Option-cases (existing_result input.event_type input.job_id t)) [
        | inr (q, there) ↦ rw (writable, there) (h job)
        | inl room ↦
            rw (writable, room)
              (omega (
                arith,
                live_count-save job (queued_row now fresh input branch_code) t new,
                existing_result_room job input.event_type input.job_id t room (h job),
              ))
      ]
    ]
