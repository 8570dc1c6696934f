-- ===== src/Outbox/Settled.antt =====
-- The retries of an event end: what repeated drains make of a row that is Pending.
use mathlib.Core.List.{Memᴰ}
use ivis_backend.Base.{
  ℕ, ◌+◌, ◌*◌, ◌≤◌, ◌<◌, ◌≡◌, ◌≢◌, refl, sym, ap, ◌∙◌, subst, true, false, some, List, [], ◌∷◌,
  arith, inl, inr, Bool-cases, find_unique, find_passes, Memᴰ-find,
}
use ivis_backend.Outbox.Row.{DeliveryStatus, TajdeedOutbox, is_pending}
use ivis_backend.Outbox.Dao.{Table, has_id, find_by_id, is_due, find_due_for_send}
use ivis_backend.Outbox.Provider.{Provider}
use ivis_backend.Outbox.Dispatcher.{Config, is_off, drain_batch, max_attempts, send_all, drain}
use ivis_backend.Outbox.Delivery.{SameEvent, drain-Drained}
use ivis_backend.Outbox.Batch.{
  waiting_count, HasDistinctIds, find_due_for_send-inv, find_due_for_send-Memᴰ,
  send_all-waiting_count, send_all-HasDistinctIds, send_all-others,
}
use ivis_backend.Outbox.Retried.{Retried, send_all-tried}

-- `DRAIN_INTERVAL_MS`
abbrev pub drain_interval_ms : ℕ
drain_interval_ms = 30000

-- One drain after the other, each with its instant and the provider as it then answers.
abbrev pub drains : Config → List (ℕ × Provider) → Table → Table
drains config [] t = t
drains config ((now, provider) ∷ later) t = drains config later (drain config provider now t)

-- No drain comes later than the interval after the one before it.
abbrev pub IsSteady : ℕ → List (ℕ × Provider) → Type 0
IsSteady before [] = Unit
IsSteady before ((now, provider) ∷ later) = (now ≤ before + drain_interval_ms) × IsSteady now later

abbrev pub last_instant : ℕ → List (ℕ × Provider) → ℕ
last_instant before [] = before
last_instant before ((now, provider) ∷ later) = last_instant now later

-- What holds of the table between two drains.
pub record IsSound (t : Table) : Type 0 where
  pub distinct : HasDistinctIds t
  pub few : waiting_count t ≤ drain_batch

-- Where the row stands after a drain: settled, or due within five minutes with `n` attempts behind it.
abbrev Waits : ℕ → ℕ → TajdeedOutbox → Type 0
Waits bound now q =
    q.delivery_status ≡ DeliveryStatus.pending
    → (n at : ℕ) × (n ≤ q.attempt_count)
      × (n < max_attempts)
      × (q.next_attempt_at ≡ some at)
      × (now < at)
      × (at + max_attempts * 330000 ≤ bound + n * 330000)

module _ (config : Config) (provider : Provider) (now : ℕ) (on : is_off config ≡ false) where
  drain-batch :
      (t : Table)
      → drain config provider now t
        ≡ send_all config provider now (find_due_for_send now drain_batch t) t
  unfolding drain
  drain-batch t = rw on refl

  drain-IsSound : (t : Table) → IsSound t → IsSound (drain config provider now t)
  drain-IsSound t sound =
      let rows = find_due_for_send now drain_batch t in
      subst IsSound (sym (drain-batch t)) (record {
        distinct = send_all-HasDistinctIds config provider now rows t sound.distinct;
        few =
            let fewer = send_all-waiting_count config provider now rows t in
            let few = sound.few in omega arith;
      })

  own_row :
      (t : Table) (r : TajdeedOutbox)
      → IsSound t
      → find_by_id r.id t ≡ some r
      → (row : TajdeedOutbox) → Memᴰ row (find_due_for_send now drain_batch t)
      → r.id ≡ row.id
      → row ≡ r
  own_row t r sound found row m same =
      let again =
        find_unique (has_id r.id) t (find_due_for_send-inv now drain_batch t m).0 (ground arith)
          (sound.distinct r.id) in
      let twice = sym again ∙ found in cc

  drain-Retried :
      (t : Table) (r : TajdeedOutbox)
      → IsSound t
      → find_by_id r.id t ≡ some r
      → r.delivery_status ≡ DeliveryStatus.pending
      → is_due now r.next_attempt_at ≡ true
      → (s : TajdeedOutbox) × (find_by_id r.id (drain config provider now t) ≡ some s)
        × Retried now r s
  drain-Retried t r sound found waiting due =
      let rows = find_due_for_send now drain_batch t in
      let (s, found', retried) =
        send_all-tried config provider now r rows t (own_row t r sound found)
          (find_due_for_send-Memᴰ now drain_batch t (Memᴰ-find (has_id r.id) t found) waiting due
            sound.few)
          found in
      (s, ap (find_by_id r.id) (drain-batch t) ∙ found', retried)

  drain-not_due :
      (t : Table) (r : TajdeedOutbox)
      → IsSound t
      → find_by_id r.id t ≡ some r
      → is_due now r.next_attempt_at ≡ false
      → find_by_id r.id (drain config provider now t) ≡ some r
  drain-not_due t r sound found early =
      let rows = find_due_for_send now drain_batch t in
      ap (find_by_id r.id) (drain-batch t)
      ∙ send_all-others config provider now r.id rows t (λ row m same.
        let own = own_row t r sound found row m same in
        let passed = (find_due_for_send-inv now drain_batch t m).1 in
        absurd (ground (arith, ap (λ (k : TajdeedOutbox). is_due now k.next_attempt_at) own)))
      ∙ found

  drain-over :
      (bound id : ℕ) (t : Table) (r : TajdeedOutbox)
      → find_by_id id t ≡ some r
      → is_pending r.delivery_status ≡ false
      → (s : TajdeedOutbox) × (find_by_id id (drain config provider now t) ≡ some s)
        × Waits bound now s
  drain-over bound id t r found over =
      let (s, found', d) = drain-Drained config provider now id r t found in
      let same = d.settled (λ waiting. ground (arith, ap is_pending waiting)) in
      (
        s,
        found',
        λ still.
            absurd (ground (arith, ap (λ (k : TajdeedOutbox). is_pending k.delivery_status) same)),
      )

  -- One drain, at most the interval after the last one.
  drain-Waits :
      (bound before : ℕ) (t : Table) (r : TajdeedOutbox)
      → IsSound t
      → now ≤ before + drain_interval_ms
      → find_by_id r.id t ≡ some r
      → Waits bound before r
      → (s : TajdeedOutbox) × (find_by_id r.id (drain config provider now t) ≡ some s)
        × Waits bound now s
  drain-Waits bound before t r sound soon found waits =
      elim (Bool-cases (is_pending r.delivery_status)) [
        | inr over ↦ drain-over bound r.id t r found over
        | inl yes_pending ↦
            let waiting : r.delivery_status ≡ DeliveryStatus.pending = ground arith in
            let (n, at, counted, fewer, set, ahead, room) = waits waiting in
            elim (Bool-cases (is_due now r.next_attempt_at)) [
              | inl due ↦
                  let (s, found', retried) = drain-Retried t r sound found waiting due in
                  (
                    s,
                    found',
                    λ still.
                        let (more, few, (at', set', ahead', near)) = retried still in
                        (n + 1, at', omega arith, omega arith, set', ahead', omega arith),
                  )
              | inr early ↦ (
                r,
                drain-not_due t r sound found early,
                λ still. (n, at, counted, fewer, set, ground (arith, set), room),
              )
            ]
      ]

  -- The first drain at which the row is due.
  drain-tried :
      (id : ℕ) (t : Table) (r : TajdeedOutbox)
      → IsSound t
      → find_by_id id t ≡ some r
      → is_due now r.next_attempt_at ≡ true
      → (q : TajdeedOutbox) × (find_by_id id (drain config provider now t) ≡ some q)
        × Waits (now + 300000 + 11 * 330000) now q
  drain-tried id t r sound found due =
      let named : r.id ≡ id = let hit = find_passes (has_id id) t {x = r} found in ground arith in
      elim (Bool-cases (is_pending r.delivery_status)) [
        | inr over ↦ drain-over (now + 300000 + 11 * 330000) id t r found over
        | inl yes_pending ↦
            let (s, found', retried) =
              drain-Retried t r sound (ap (λ k. find_by_id k t) named ∙ found) (ground arith) due in
            (
              s,
              ap (λ k. find_by_id k (drain config provider now t)) (sym named) ∙ found',
              λ still.
                  let (more, few, (at, set, ahead, near)) = retried still in
                  (1, at, omega arith, omega arith, set, ahead, omega arith),
            )
      ]

module _ (config : Config) (on : is_off config ≡ false) where
  drains-Waits :
      (bound before id : ℕ) (later : List (ℕ × Provider)) (t : Table) (r : TajdeedOutbox)
      → IsSound t
      → IsSteady before later
      → find_by_id id t ≡ some r
      → Waits bound before r
      → (s : TajdeedOutbox) × (find_by_id id (drains config later t) ≡ some s)
        × Waits bound (last_instant before later) s
  drains-Waits bound before id [] t r sound steady found waits = (r, found, waits)
  drains-Waits bound before id ((now, provider) ∷ later) t r sound steady found waits =
      let named : r.id ≡ id = let hit = find_passes (has_id id) t {x = r} found in ground arith in
      let (s, found', waits') =
        drain-Waits config provider now on bound before t r sound steady.0
          (ap (λ k. find_by_id k t) named ∙ found) waits in
      drains-Waits bound now id later (drain config provider now t) s
        (drain-IsSound config provider now on t sound) steady.1
        (ap (λ k. find_by_id k (drain config provider now t)) (sym named) ∙ found') waits'

drains-SameEvent :
    (config : Config) (id : ℕ) (runs : List (ℕ × Provider)) (t : Table) (r : TajdeedOutbox)
    → find_by_id id t ≡ some r
    → (s : TajdeedOutbox) × (find_by_id id (drains config runs t) ≡ some s) × SameEvent r s
drains-SameEvent config id [] t r found = (r, found, ground arith)
drains-SameEvent config id ((now, provider) ∷ later) t r found =
    let (q, found', d) = drain-Drained config provider now id r t found in
    let (s, found'', e) = drains-SameEvent config id later (drain config provider now t) q found' in
    (s, found'', ground (arith, d.event, e))

-- If pushing is on, ids are distinct and no more than a batch of rows is Pending, a row is due at a
-- drain, every further drain comes at most 30 seconds after the one before it, the last one comes an
-- hour or more after the first, and nothing but drains works on the table, then the row, the same
-- event, is no longer Pending after the last drain, whatever the provider answered each time.
pub drains-settled :
    (config : Config) (provider : Provider) (from id : ℕ) (later : List (ℕ × Provider)) (t : Table)
    (r : TajdeedOutbox)
    → is_off config ≡ false
    → IsSound t
    → find_by_id id t ≡ some r
    → is_due from r.next_attempt_at ≡ true
    → IsSteady from later
    → from + 3600000 ≤ last_instant from later
    → (s : TajdeedOutbox) × (find_by_id id (drains config ((from, provider) ∷ later) t) ≡ some s)
      × SameEvent r s
      × (s.delivery_status ≢ DeliveryStatus.pending)
drains-settled config provider from id later t r on sound found due steady long =
    let named : r.id ≡ id = let hit = find_passes (has_id id) t {x = r} found in ground arith in
    let (s, found', event) = drains-SameEvent config id ((from, provider) ∷ later) t r found in
    let (q, there, waits) = drain-tried config provider from on id t r sound found due in
    let (s', found'', last) =
      drains-Waits config on (from + 300000 + 11 * 330000) from id later
        (drain config provider from t) q (drain-IsSound config provider from on t sound) steady
        there waits in
    let same : s' ≡ s = let twice = sym found'' ∙ found' in cc in
    (
      s,
      found',
      event,
      λ still.
          let (n, at, counted, fewer, set, ahead, room) =
            last (ap (λ (k : TajdeedOutbox). k.delivery_status) same ∙ still) in
          absurd (omega arith),
    )
