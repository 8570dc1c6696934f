-- ===== src/Outbox/Batch.antt =====
-- The batch of a drain: which rows it holds, and what the sends of it keep of the table.
use mathlib.Core.List.{Memᴰ}
use ivis_backend.Base.{
  ℕ, ◌+◌, ◌≤◌, ◌≡◌, ◌≢◌, refl, true, List, [], ◌∷◌, ◌&&◌, arith, inl, inr, ◌∙◌, tally, tally_mono,
  tally-update_first, tally-update_first_same, find-update_first, find_passes, one_if, Memᴰ-keep,
  Memᴰ-sort_by, Memᴰ-take, batch-Memᴰ, ap, ◌==◌, keep, sort_by,
}
use ivis_backend.Outbox.Row.{DeliveryStatus, TajdeedOutbox, is_pending}
use ivis_backend.Outbox.Dao.{
  Table, has_id, find_by_id, patch, claimed, created_before, is_due, find_due_for_send,
}
use ivis_backend.Outbox.Backoff.{next_retry_delay_ms}
use ivis_backend.Outbox.Provider.{Provider, push_event}
use ivis_backend.Outbox.Dispatcher.{Config, settle, send, send_all, envelope_of}
use ivis_backend.Outbox.LiveUnique.{send-cases}
use ivis_backend.Outbox.Delivery.{settle-SameEvent, send-others}

abbrev pub waiting_count : Table → ℕ
waiting_count t = tally (λ (r : TajdeedOutbox). is_pending r.delivery_status) t

-- `id` is the primary key.
abbrev pub HasDistinctIds : Table → Type 0
HasDistinctIds t = (id : ℕ) → tally (has_id id) t ≤ 1

pub find_due_for_send-inv :
    (now limit : ℕ) (t : Table) {q : TajdeedOutbox}
    → Memᴰ q (find_due_for_send now limit t)
    → Memᴰ q t × (is_pending q.delivery_status && is_due now q.next_attempt_at ≡ true)
unfolding find_due_for_send
find_due_for_send-inv now limit t m =
    let test =
      λ (r : TajdeedOutbox). is_pending r.delivery_status && is_due now r.next_attempt_at in
    Memᴰ-keep test t (
      Memᴰ-sort_by created_before (keep test t)
        (Memᴰ-take limit (sort_by created_before (keep test t)) m))

pub find_due_for_send-Memᴰ :
    (now limit : ℕ) (t : Table) {r : TajdeedOutbox}
    → Memᴰ r t
    → r.delivery_status ≡ DeliveryStatus.pending
    → is_due now r.next_attempt_at ≡ true
    → waiting_count t ≤ limit
    → Memᴰ r (find_due_for_send now limit t)
unfolding find_due_for_send
find_due_for_send-Memᴰ now limit t {r} m waiting due few =
    let test =
      λ (q : TajdeedOutbox). is_pending q.delivery_status && is_due now q.next_attempt_at in
    let fewer =
      tally_mono test (λ (q : TajdeedOutbox). is_pending q.delivery_status) (λ q h. ground arith)
        t in
    batch-Memᴰ limit created_before test t m (ground (arith, ap is_pending waiting)) (omega arith)

module _ (config : Config) (provider : Provider) (now : ℕ) where
  send-waiting_count :
      (row : TajdeedOutbox) (t : Table)
      → waiting_count (send config provider now row t) ≤ waiting_count t
  send-waiting_count row t =
      let at = now + next_retry_delay_ms (row.attempt_count + 1) in
      let outcome = push_event config.has_key provider (envelope_of now row) in
      let test = λ (r : TajdeedOutbox). is_pending r.delivery_status in
      elim (send-cases config provider now row t) [
        | inl same ↦ rw same (omega arith)
        | inr (r, found, waiting, won) ↦
            let hit = find_passes (has_id row.id) t {x = r} found in
            let first = tally-update_first_same test (has_id row.id) (claimed at) (λ q. refl) t in
            let second =
              tally-update_first test (has_id row.id) (settle now row outcome)
                (patch row.id (claimed at) t)
                (find-update_first (has_id row.id) (claimed at) t {x = r} found hit) in
            let was : one_if (test r) ≡ 1 = rw waiting refl in
            rw won (ground (arith, first, second, was))
      ]

  send-HasDistinctIds :
      (row : TajdeedOutbox) (t : Table)
      → HasDistinctIds t
      → HasDistinctIds (send config provider now row t)
  send-HasDistinctIds row t distinct id =
      let at = now + next_retry_delay_ms (row.attempt_count + 1) in
      let outcome = push_event config.has_key provider (envelope_of now row) in
      elim (send-cases config provider now row t) [
        | inl same ↦ rw same (distinct id)
        | inr (r, found, waiting, won) ↦
            let first =
              tally-update_first_same (has_id id) (has_id row.id) (claimed at) (λ q. refl) t in
            let second =
              tally-update_first_same (has_id id) (has_id row.id) (settle now row outcome)
                (λ q. ap (λ k. k == id) ((settle-SameEvent now row outcome q).same_id))
                (patch row.id (claimed at) t) in
            rw won (rw second (rw first (distinct id)))
      ]

  pub send_all-waiting_count :
      (rows : List TajdeedOutbox) (t : Table)
      → waiting_count (send_all config provider now rows t) ≤ waiting_count t
  unfolding send_all
  send_all-waiting_count [] t = omega arith
  send_all-waiting_count (row ∷ rows) t = omega (
    arith,
    send-waiting_count row t,
    send_all-waiting_count rows (send config provider now row t),
  )

  pub send_all-HasDistinctIds :
      (rows : List TajdeedOutbox) (t : Table)
      → HasDistinctIds t
      → HasDistinctIds (send_all config provider now rows t)
  unfolding send_all
  send_all-HasDistinctIds [] t distinct = distinct
  send_all-HasDistinctIds (row ∷ rows) t distinct =
      send_all-HasDistinctIds rows (send config provider now row t)
        (send-HasDistinctIds row t distinct)

  -- Rows that are not in the batch are left alone.
  pub send_all-others :
      (id : ℕ) (rows : List TajdeedOutbox) (t : Table)
      → ((row : TajdeedOutbox) → Memᴰ row rows → id ≢ row.id)
      → find_by_id id (send_all config provider now rows t) ≡ find_by_id id t
  unfolding send_all
  send_all-others id [] t other = refl
  send_all-others id (row ∷ rows) t other =
      send_all-others id rows (send config provider now row t) (λ q m. other q (Memᴰ.tail m))
      ∙ send-others config provider now id row t (other row (Memᴰ.head refl))
