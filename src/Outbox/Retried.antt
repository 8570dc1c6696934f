-- ===== src/Outbox/Retried.antt =====
-- What the sends of one batch make of a row that they try.
use mathlib.Core.List.{Memᴰ}
use native.Mathlib.Decide.{ℕ_discrete}
use native.Mathlib.Numerals.{add-one}
use ivis_backend.Base.{
  ℕ, ◌+◌, ◌≤◌, ◌<◌, ◌≡◌, ◌≢◌, refl, sym, ap, ◌∙◌, true, false, some, List, [], ◌∷◌, arith, inl, inr,
  Bool-cases,
}
use ivis_backend.Outbox.Row.{DeliveryStatus, TajdeedOutbox, is_pending}
use ivis_backend.Outbox.Dao.{Table, find_by_id, claimed}
use ivis_backend.Outbox.Backoff.{next_retry_delay_ms}
use ivis_backend.Outbox.Schedule.{next_retry_delay_ms_bounds}
use ivis_backend.Outbox.Provider.{Provider, PushOutcome, push_event}
use ivis_backend.Outbox.Dispatcher.{Config, max_attempts, settle, send, send_all, envelope_of}
use ivis_backend.Outbox.LiveUnique.{send-cases}
use ivis_backend.Outbox.Delivery.{find-send, send-others}

-- A row `q` that is still Pending after a drain that tried the row `r`.
abbrev pub Retried : ℕ → TajdeedOutbox → TajdeedOutbox → Type 0
Retried now r q =
    q.delivery_status ≡ DeliveryStatus.pending
    → (r.attempt_count + 1 ≤ q.attempt_count)
      × (r.attempt_count + 1 < max_attempts)
      × ((at : ℕ) × (q.next_attempt_at ≡ some at) × (now < at) × (at ≤ now + 300000))

settle_retried :
    (now at : ℕ) (row r : TajdeedOutbox) (o : PushOutcome)
    → row.attempt_count ≤ r.attempt_count
    → (settle now row o (claimed at r)).delivery_status ≡ DeliveryStatus.pending
    → (row.attempt_count + 1 ≤ (settle now row o (claimed at r)).attempt_count)
      × (row.attempt_count + 1 < max_attempts)
      × ((settle now row o (claimed at r)).next_attempt_at ≡ some at)
unfolding settle
settle_retried now at row r (PushOutcome.delivered d x) h e = ground arith
settle_retried now at row r (PushOutcome.refused true m x) h e = ground arith
settle_retried now at row r (PushOutcome.refused false m x) h e = ground arith

module _ (config : Config) (provider : Provider) (now : ℕ) (r : TajdeedOutbox) where
  -- A send of the row as it was read.
  send-Retried :
      (q : TajdeedOutbox) (t : Table)
      → find_by_id r.id t ≡ some q
      → (q.delivery_status ≡ DeliveryStatus.pending → r.attempt_count ≤ q.attempt_count)
      → (s : TajdeedOutbox) × (find_by_id r.id (send config provider now r t) ≡ some s)
        × Retried now r s
  send-Retried q t found counted =
      let at = now + next_retry_delay_ms (r.attempt_count + 1) in
      let outcome = push_event config.has_key provider (envelope_of now r) in
      let bounds = next_retry_delay_ms_bounds r.attempt_count in
      elim (Bool-cases (is_pending q.delivery_status)) [
        | inl yes_pending ↦
            let waiting : q.delivery_status ≡ DeliveryStatus.pending = ground arith in
            (
              settle now r outcome (claimed at q),
              find-send config provider now r q t found waiting,
              λ still.
                  let (more, few, due) =
                    settle_retried now at r q outcome (counted waiting) still in
                  (more, few, (at, due, rw add-one (omega arith), rw add-one (omega arith))),
            )
        | inr over ↦ elim (send-cases config provider now r t) [
          | inl same ↦ (q, rw same found, λ still. absurd (ground arith))
          | inr (q', found', waiting, won) ↦
              let same : q' ≡ q = let twice = sym found' ∙ found in cc in
              absurd (ground (arith, ap (λ (k : TajdeedOutbox). k.delivery_status) same))
        ]
      ]

  -- The rest of the batch.
  send_all-Retried :
      (rows : List TajdeedOutbox) (q : TajdeedOutbox) (t : Table)
      → ((row : TajdeedOutbox) → Memᴰ row rows → r.id ≡ row.id → row ≡ r)
      → find_by_id r.id t ≡ some q
      → Retried now r q
      → (s : TajdeedOutbox) × (find_by_id r.id (send_all config provider now rows t) ≡ some s)
        × Retried now r s
  unfolding send_all
  send_all-Retried [] q t own found retried = (q, found, retried)
  send_all-Retried (row ∷ rows) q t own found retried = elim (ℕ_discrete r.id row.id) [
    | no other ↦
        send_all-Retried rows q (send config provider now row t) (λ k m. own k (Memᴰ.tail m))
          (send-others config provider now r.id row t other ∙ found) retried
    | yes same ↦
        let (s, found', retried') =
          send-Retried q t found
            (λ waiting. let (more, few, due) = retried waiting in omega arith) in
        let here = own row (Memᴰ.head refl) same in
        send_all-Retried rows s (send config provider now row t) (λ k m. own k (Memᴰ.tail m))
          (ap (λ k. find_by_id r.id (send config provider now k t)) here ∙ found') retried'
  ]

  -- A batch that holds the row tries it.
  pub send_all-tried :
      (rows : List TajdeedOutbox) (t : Table)
      → ((row : TajdeedOutbox) → Memᴰ row rows → r.id ≡ row.id → row ≡ r)
      → Memᴰ r rows
      → find_by_id r.id t ≡ some r
      → (s : TajdeedOutbox) × (find_by_id r.id (send_all config provider now rows t) ≡ some s)
        × Retried now r s
  unfolding send_all
  send_all-tried [] t own m found = elim m [ ]
  send_all-tried (row ∷ rows) t own m found = elim (ℕ_discrete r.id row.id) [
    | yes same ↦
        let (s, found', retried) = send-Retried r t found (λ _. omega arith) in
        let here = own row (Memᴰ.head refl) same in
        send_all-Retried rows s (send config provider now row t) (λ k m'. own k (Memᴰ.tail m'))
          (ap (λ k. find_by_id r.id (send config provider now k t)) here ∙ found') retried
    | no other ↦
        send_all-tried rows (send config provider now row t) (λ k m'. own k (Memᴰ.tail m'))
          (later other m) (send-others config provider now r.id row t other ∙ found)
  ]
    where
      later : r.id ≢ row.id → Memᴰ r (row ∷ rows) → Memᴰ r rows
      later other (Memᴰ.head same) = absurd (other (ap (λ (k : TajdeedOutbox). k.id) same))
      later other (Memᴰ.tail m') = m'
