-- ===== src/Outbox/LiveRetry.antt =====
-- One live inspection result per job: the ways in which a rejected result is queued again.
use mathlib.Core.List.{Memᴰ}
use ivis_backend.Base.{
  if-cases, ℕ, ◌+◌, ◌≤◌, ◌≡◌, refl, true, false, none, some, arith, tally, one_if, Bool-cases,
  Option-cases, inl, inr, ◌&&◌, some_is, find-update_first_both, find-update_first-none,
  first-sort_by-keep, find_unique, Text, ◌∙◌,
}
use ivis_backend.Outbox.Row.{EventStatus, DeliveryStatus, TajdeedOutbox, is_inspection_result}
use ivis_backend.Outbox.Dao.{
  Table, has_id, find_by_id, patch, has_live_inspection_result, find_by_transaction_id,
  has_transaction, is_result_of, created_after, find_latest_inspection_result_by_job_id,
}
use ivis_backend.Outbox.Service.{successor, repush, push_now_for_job}
use ivis_backend.Outbox.Provider.{Provider, ReconcileEntry}
use ivis_backend.Outbox.Dispatcher.{
  apply_status, apply_as, mark_failed, mark_processed, mark_not_found, mark_in_flight, is_storable,
  rejection_reason, rejection_retry_delay_ms, schedule_rejection_retry, may_retry,
}
use ivis_backend.Outbox.LiveUnique.{HasOneLive}
use ivis_backend.Outbox.Live.{
  live_count, live_count-save, has_live_inspection_result_lem, live_count-patch_le,
}

-- A repush under a new id of an event that is found adds one live result for the job of an inspection
-- result, whatever the state of the original, and for no other job.
pub repush-live_count :
    (job now : ℕ) (fresh : ℕ × ℕ) (transaction_id run_at : ℕ) (t : Table) {original : TajdeedOutbox}
    → find_by_id fresh.0 t ≡ none
    → find_by_transaction_id transaction_id t ≡ some original
    → live_count job (repush now fresh transaction_id run_at t).1
      ≡ live_count job t
        + one_if (some_is original.job_id job && is_inspection_result original.event_type)
unfolding repush
repush-live_count job now fresh transaction_id run_at t {original} new found =
    rw (found, repush)
      (rw (live_count-save job (successor now fresh run_at original) t new) (ground arith))

-- No two rows carry one transaction id (a unique index of the table).
abbrev pub HasUniqueTransactions : Table → Type 0
HasUniqueTransactions t = (tx : ℕ) → tally (has_transaction tx) t ≤ 1

pub find_latest_inspection_result_by_job_id_lem :
    (job : ℕ) (t : Table) {r : TajdeedOutbox}
    → find_latest_inspection_result_by_job_id job t ≡ some r
    → Memᴰ r t × (is_result_of job r ≡ true)
unfolding find_latest_inspection_result_by_job_id
find_latest_inspection_result_by_job_id_lem job t e =
    first-sort_by-keep created_after (is_result_of job) t e

-- If every job has at most one live inspection result and no transaction id occurs twice, every job
-- still has at most one after an operator's retry under a new id.
pub push_now_for_job-HasOneLive :
    (now : ℕ) (fresh : ℕ × ℕ) (job : ℕ) (t : Table)
    → find_by_id fresh.0 t ≡ none
    → HasUniqueTransactions t
    → HasOneLive t
    → HasOneLive (push_now_for_job now fresh job t).1
unfolding push_now_for_job
push_now_for_job-HasOneLive now fresh job t new unique h j =
    elim (Option-cases (find_latest_inspection_result_by_job_id job t)) [
      | inl nothing ↦ rw (nothing, push_now_for_job) (h j)
      | inr (latest, found) ↦ elim (Bool-cases (has_live_inspection_result job t)) [
        | inl live ↦ rw (found, push_now_for_job, live) (h j)
        | inr idle ↦
            let (there, passes) = find_latest_inspection_result_by_job_id_lem job t found in
            let original =
              find_unique (has_transaction latest.transaction_id) t there (ground arith)
                (unique latest.transaction_id) in
            rw (found, push_now_for_job, idle)
              (rw
                (repush-live_count j now fresh latest.transaction_id now t {original = latest} new
                  original)
                (ground (arith, has_live_inspection_result_lem job t idle, h j)))
      ]
    ]

-- The sweep's copy `row` of a row is what the table holds under its id and its transaction id.
pub record Stands (row : TajdeedOutbox) (t : Table) : Type 0 where
  pub by_id : find_by_id row.id t ≡ some row
  pub by_transaction : find_by_transaction_id row.transaction_id t ≡ some row
  pub is_delivered : row.delivery_status ≡ DeliveryStatus.accepted

-- What the early returns have established when a retry is scheduled.
may_retry-idle :
    (now : ℕ) (row : TajdeedOutbox) (reason : Text) (t : Table)
    → may_retry now row reason t ≡ true
    → (job : ℕ) × (row.job_id ≡ some job) × (live_count job t ≡ 0)
unfolding may_retry
may_retry-idle now row reason t h = elim (Option-cases row.job_id) [
  | inl no_job ↦ absurd (ground arith)
  | inr (job, owner) ↦
      let idle : has_live_inspection_result job t ≡ false = ground arith in
      (job, owner, has_live_inspection_result_lem job t idle)
]

schedule_rejection_retry-room :
    (now : ℕ) (fresh : ℕ × ℕ) (row q : TajdeedOutbox) (reason : Text) (t : Table)
    → find_by_id fresh.0 t ≡ none
    → find_by_transaction_id row.transaction_id t ≡ some q
    → q.job_id ≡ row.job_id
    → HasOneLive t
    → HasOneLive (schedule_rejection_retry now fresh row reason t)
unfolding schedule_rejection_retry
schedule_rejection_retry-room now fresh row q reason t new found same h j =
    elim (Bool-cases (may_retry now row reason t)) [
      | inr refused ↦ rw refused (h j)
      | inl allowed ↦
          let (job, owner, idle) = may_retry-idle now row reason t allowed in
          let at = now + rejection_retry_delay_ms in
          rw allowed (
            rw (repush-live_count j now fresh row.transaction_id at t {original = q} new found)
              (rw (same ∙ owner) (ground (arith, h j))))
    ]

apply_as-HasOneLive :
    (status : EventStatus) (provider : Provider) (now : ℕ) (fresh : ℕ × ℕ) (row : TajdeedOutbox)
    (entry : ReconcileEntry) (t : Table)
    → Stands row t
    → find_by_id fresh.0 t ≡ none
    → HasOneLive t
    → HasOneLive (apply_as status provider now fresh row entry t)
unfolding apply_as
apply_as-HasOneLive EventStatus.processed provider now fresh row entry t stands new h job = omega (
  arith,
  h job,
  live_count-patch_le job row.id (mark_processed now entry) t {r = row} stands.by_id (ground arith),
)
apply_as-HasOneLive EventStatus.failed provider now fresh row entry t stands new h j =
    let detail = provider.fetch_event_status row.transaction_id in
    let reason = rejection_reason detail in
    let change = mark_failed reason detail entry in
    schedule_rejection_retry-room now fresh row (change row) reason (patch row.id change t)
      (find-update_first-none (has_id fresh.0) (has_id row.id) change (λ q. refl) t new)
      (find-update_first_both (has_transaction row.transaction_id) (has_id row.id) change t
        stands.by_id stands.by_transaction (ground arith))
      refl
      (λ job. omega (
        arith,
        h job,
        live_count-patch_le job row.id change t {r = row} stands.by_id (ground arith),
      ))
      j
apply_as-HasOneLive EventStatus.not_found provider now fresh row entry t stands new h job = omega (
  arith,
  h job,
  live_count-patch_le job row.id (mark_not_found now entry) t {r = row} stands.by_id
      (ground (arith, stands.is_delivered)),
)
apply_as-HasOneLive _ provider now fresh row entry t stands new h job =
    if-cases (λ u. live_count job u ≤ 1) (is_storable entry.event_status)
      (λ _. omega (
        arith,
        h job,
        live_count-patch_le job row.id (mark_in_flight entry) t {r = row} stands.by_id
            (ground arith),
      ))
      (λ _. h job)

-- If every job has at most one live inspection result, it still has after any answer of the provider
-- for a row that is Accepted and found under both of its ids was applied, the automatic retry of a
-- rejection under a new id included.
pub apply_status-HasOneLive :
    (provider : Provider) (now : ℕ) (fresh : ℕ × ℕ) (row : TajdeedOutbox) (entry : ReconcileEntry)
    (t : Table)
    → Stands row t
    → find_by_id fresh.0 t ≡ none
    → HasOneLive t
    → HasOneLive (apply_status provider now fresh row entry t)
unfolding apply_status
apply_status-HasOneLive provider now fresh row entry t stands new h =
    apply_as-HasOneLive entry.event_status provider now fresh row entry t stands new h
