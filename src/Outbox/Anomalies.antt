-- ===== src/Outbox/Anomalies.antt =====
-- Two ways in which a job's result ends outside what the comments of the outbox promise.
use mathlib.Core.List.{Memᴰ}
use ivis_backend.Base.{
  ◌≤◌, length, leb, ◌∙◌, if_true, ℕ, ◌<◌, ◌≡◌, refl, true, false, none, some, arith, inl, inr, ap,
  Text, ◌&&◌, tally, first-sort_by-keep-none, Option-cases, find-update_first, tally-update_first,
  tally_pos, Memᴰ-take, Memᴰ-keep, Memᴰ-sort_by, Memᴰ-find, find_passes, find_unique,
  find-update_first-none, keep, tally-update_first_same,
}
use ivis_backend.Outbox.Row.{EventType, EventStatus, TajdeedOutbox, is_accepted}
use ivis_backend.Outbox.Dao.{
  Table, has_id, find_by_id, patch, is_live_result, is_result_of, is_unsettled, instant_before,
  created_after, has_transaction, find_awaiting_confirmation, has_live_inspection_result,
  find_latest_inspection_result_by_job_id,
}
use ivis_backend.Outbox.Service.{push_now_for_job}
use ivis_backend.Outbox.Provider.{Provider, ReconcileEntry}
use ivis_backend.Outbox.Dispatcher.{
  apply_as, apply_status, mark_in_flight, mark_processed, is_storable,
}
use ivis_backend.Outbox.Live.{live_count}
use ivis_backend.Outbox.LiveUnique.{HasOneLive}
use ivis_backend.Outbox.LiveRetry.{
  Stands, HasUniqueTransactions, repush-live_count, find_latest_inspection_result_by_job_id_lem,
}

awaiting_unsettled :
    (limit : ℕ) (t : Table) (q : TajdeedOutbox)
    → Memᴰ q (find_awaiting_confirmation limit t)
    → is_unsettled q.event_status ≡ true
unfolding find_awaiting_confirmation
awaiting_unsettled limit t q m =
    let before = λ (a b : TajdeedOutbox). instant_before a.accepted_at b.accepted_at in
    let p = λ (r : TajdeedOutbox). is_accepted r.delivery_status && is_unsettled r.event_status in
    let passes = (Memᴰ-keep p t (Memᴰ-sort_by before (keep p t) (Memᴰ-take limit _ m))).1 in
    ground arith

apply_status-unknown :
    (provider : Provider) (now : ℕ) (fresh : ℕ × ℕ) (row : TajdeedOutbox) (entry : ReconcileEntry)
    (word : Text) (t : Table)
    → entry.event_status ≡ EventStatus.other word
    → length word ≤ 16
    → apply_status provider now fresh row entry t ≡ patch row.id (mark_in_flight entry) t
unfolding apply_status
apply_status-unknown provider now fresh row entry word t h short =
    let fits : leb (length word) 16 ≡ true = ground arith in
    ap (λ s. apply_as s provider now fresh row entry t) h ∙ if_true _ (ap is_storable h ∙ fits)

apply_status-processed :
    (provider : Provider) (now : ℕ) (fresh : ℕ × ℕ) (row : TajdeedOutbox) (entry : ReconcileEntry)
    (t : Table)
    → entry.event_status ≡ EventStatus.processed
    → apply_status provider now fresh row entry t ≡ patch row.id (mark_processed now entry) t
unfolding apply_status
apply_status-processed provider now fresh row entry t h =
    ap (λ s. apply_as s provider now fresh row entry t) h

in_sweep :
    (limit : ℕ) (t : Table) (q : TajdeedOutbox) (word : Text)
    → q.event_status ≡ some (EventStatus.other word)
    → ¬ Memᴰ q (find_awaiting_confirmation limit t)
in_sweep limit t q word unknown m = ground (arith, awaiting_unsettled limit t q m)

has_live_of_pos :
    (job : ℕ) (t : Table) → 0 < live_count job t → has_live_inspection_result job t ≡ true
unfolding has_live_inspection_result
has_live_of_pos job t h = ground arith

no_live_of_zero :
    (job : ℕ) (t : Table) → live_count job t ≡ 0 → has_live_inspection_result job t ≡ false
unfolding has_live_inspection_result
no_live_of_zero job t h = ground arith

no_result :
    (job : ℕ) (t : Table)
    → find_latest_inspection_result_by_job_id job t ≡ none
    → tally (is_result_of job) t ≡ 0
unfolding find_latest_inspection_result_by_job_id
no_result job t e = first-sort_by-keep-none created_after (is_result_of job) t e

push_now-live :
    (later : ℕ) (ids : ℕ × ℕ) (job : ℕ) (t : Table)
    → 0 < live_count job t
    → (push_now_for_job later ids job t).1 ≡ t
unfolding push_now_for_job
push_now-live later ids job t h =
    elim (Option-cases (find_latest_inspection_result_by_job_id job t)) [
      | inl nothing ↦ rw (nothing, push_now_for_job)
      | inr (latest, found) ↦ rw (found, push_now_for_job, has_live_of_pos job t h)
    ]

-- An answer of at most 16 characters outside the provider's five statuses takes a job's inspection result that is Accepted, and
-- is found under both of its ids, out of the confirm sweep of any size, while the row still counts as
-- the job's live result, so that every later retry by an operator leaves the table as it is.
pub unknown_status_stuck :
    (provider : Provider) (now : ℕ) (fresh : ℕ × ℕ) (row : TajdeedOutbox) (entry : ReconcileEntry)
    (job : ℕ) (word : Text) (t : Table)
    → Stands row t
    → row.event_type ≡ EventType.inspection_result
    → row.job_id ≡ some job
    → entry.event_status ≡ EventStatus.other word
    → length word ≤ 16
    → let t' = apply_status provider now fresh row entry t in
      (q : TajdeedOutbox) × (find_by_id row.id t' ≡ some q)
      × ((limit : ℕ) → ¬ Memᴰ q (find_awaiting_confirmation limit t'))
      × (has_live_inspection_result job t' ≡ true)
      × ((later : ℕ) (ids : ℕ × ℕ) → (push_now_for_job later ids job t').1 ≡ t')
unknown_status_stuck provider now fresh row entry job word t stands result owner unknown short =
    let t' = patch row.id (mark_in_flight entry) t in
    let q = mark_in_flight entry row in
    let found =
      find-update_first (has_id row.id) (mark_in_flight entry) t stands.by_id
        (find_passes (has_id row.id) t stands.by_id) in
    let live : 0 < live_count job t' =
      tally_pos (is_live_result job) t' (Memᴰ-find (has_id row.id) t' found)
        (ground (arith, stands.is_delivered)) in
    rw (apply_status-unknown provider now fresh row entry word t unknown short) (
      q,
      found,
      λ limit m. in_sweep limit t' q word (ap (λ s. some s) unknown) m,
      has_live_of_pos job t' live,
      λ later ids. push_now-live later ids job t' live,
    )

push_now-idle :
    (later : ℕ) (fresh : ℕ × ℕ) (job : ℕ) (t : Table)
    → live_count job t ≡ 0
    → 0 < tally (is_result_of job) t
    → find_by_id fresh.0 t ≡ none
    → HasUniqueTransactions t
    → live_count job (push_now_for_job later fresh job t).1 ≡ 1
unfolding push_now_for_job
push_now-idle later fresh job t idle there new unique =
    elim (Option-cases (find_latest_inspection_result_by_job_id job t)) [
      | inl nothing ↦ absurd (omega (arith, no_result job t nothing))
      | inr (latest, found) ↦
          let (member, passes) = find_latest_inspection_result_by_job_id_lem job t found in
          let original =
            find_unique (has_transaction latest.transaction_id) t member (ground arith)
              (unique latest.transaction_id) in
          rw (found, push_now_for_job, no_live_of_zero job t idle)
            (rw
              (repush-live_count job later fresh latest.transaction_id later t {original = latest}
                new original)
              (ground arith))
    ]

-- If every job has at most one live inspection result and no transaction id occurs twice, then after
-- the provider's answer `processed` to a job's Accepted result, an operator's retry under a new id
-- leaves the job with a live result again.
pub push_now_after_processed :
    (provider : Provider) (now later : ℕ) (ids fresh : ℕ × ℕ) (row : TajdeedOutbox)
    (entry : ReconcileEntry) (job : ℕ) (t : Table)
    → Stands row t
    → row.event_type ≡ EventType.inspection_result
    → row.job_id ≡ some job
    → entry.event_status ≡ EventStatus.processed
    → HasOneLive t
    → HasUniqueTransactions t
    → find_by_id fresh.0 t ≡ none
    → live_count job
        (push_now_for_job later fresh job (apply_status provider now ids row entry t)).1
      ≡ 1
push_now_after_processed provider now later ids fresh row entry job t stands result owner done h
      unique new =
    let t' = patch row.id (mark_processed now entry) t in
    let found =
      find-update_first (has_id row.id) (mark_processed now entry) t stands.by_id
        (find_passes (has_id row.id) t stands.by_id) in
    let there : 0 < tally (is_result_of job) t' =
      tally_pos (is_result_of job) t' (Memᴰ-find (has_id row.id) t' found) (ground arith) in
    let idle : live_count job t' ≡ 0 = ground (
      arith,
      stands.is_delivered,
      h job,
      tally-update_first (is_live_result job) (has_id row.id) (mark_processed now entry) t {x = row}
          stands.by_id,
    ) in
    rw (apply_status-processed provider now ids row entry t done) (
      push_now-idle later fresh job t' idle there
        (find-update_first-none (has_id fresh.0) (has_id row.id) (mark_processed now entry)
          (λ q. refl) t new)
        (λ tx.
          rw
            (tally-update_first_same (has_transaction tx) (has_id row.id) (mark_processed now entry)
              (λ q. refl) t)
            (unique tx)))
