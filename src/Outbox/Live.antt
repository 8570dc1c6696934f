-- ===== src/Outbox/Live.antt =====
-- How each statement on the table changes the number of live inspection results of a job.
use ivis_backend.Base.{
  ℕ, ◌+◌, ◌≤◌, ◌≡◌, true, false, none, some, arith, ◌==◌, ap, ◌⊎◌, tally, tally-append,
  tally-update_first, find-update_first, find_passes, one_if, Bool-cases, Option-cases, inl, inr,
}
use ivis_backend.Outbox.Row.{DeliveryStatus, TajdeedOutbox, is_pending}
use ivis_backend.Outbox.Dao.{
  Table, has_id, find_by_id, patch, save, is_live_result, has_live_inspection_result, claimed,
  claim_for_send,
}

abbrev pub live_count : ℕ → Table → ℕ
live_count job t = tally (is_live_result job) t

-- A row under a new id adds itself.
pub live_count-save :
    (job : ℕ) (row : TajdeedOutbox) (t : Table)
    → find_by_id row.id t ≡ none
    → live_count job (save row t) ≡ live_count job t + one_if (is_live_result job row)
live_count-save job row t e = rw (e, save) (rw (tally-append (is_live_result job) t) (ground arith))

-- `hasLiveInspectionResult` is whether the count is above zero.
pub has_live_inspection_result_lem :
    (job : ℕ) (t : Table) → has_live_inspection_result job t ≡ false → live_count job t ≡ 0
unfolding has_live_inspection_result
has_live_inspection_result_lem job t h = ground arith

-- An update that makes the row no livelier makes the count no larger.
pub live_count-patch_le :
    (job id : ℕ) (f : TajdeedOutbox → TajdeedOutbox) (t : Table) {r : TajdeedOutbox}
    → find_by_id id t ≡ some r
    → one_if (is_live_result job (f r)) ≤ one_if (is_live_result job r)
    → live_count job (patch id f t) ≤ live_count job t
live_count-patch_le job id f t {r} e h =
    omega (arith, tally-update_first (is_live_result job) (has_id id) f t {x = r} e)

-- A claim leaves the table alone, or finds the row Pending and takes it.
pub claim_for_send-cases :
    (id at : ℕ) (t : Table)
    → (claim_for_send id at t ≡ (false, t))
      ⊎ ((r : TajdeedOutbox) × (find_by_id id t ≡ some r)
          × (r.delivery_status ≡ DeliveryStatus.pending)
          × (claim_for_send id at t ≡ (true, patch id (claimed at) t)))
unfolding claim_for_send
claim_for_send-cases id at t = elim (Option-cases (find_by_id id t)) [
  | inl gone ↦ inl (rw (gone, claim_for_send))
  | inr (r, found) ↦ elim (Bool-cases (is_pending r.delivery_status)) [
    | inl yes_pending ↦ inr (r, found, ground arith, rw (found, claim_for_send, yes_pending))
    | inr not_pending ↦ inl (rw (found, claim_for_send, not_pending))
  ]
]

-- Two updates of one row are one.
pub live_count-patch_twice :
    (job id : ℕ) (f g : TajdeedOutbox → TajdeedOutbox) (t : Table) {r : TajdeedOutbox}
    → find_by_id id t ≡ some r
    → (f r).id ≡ r.id
    → one_if (is_live_result job (g (f r))) ≤ one_if (is_live_result job r)
    → live_count job (patch id g (patch id f t)) ≤ live_count job t
live_count-patch_twice job id f g t {r} e same h =
    let hit : has_id id (f r) ≡ true =
      rw (ap (λ (n : ℕ). n == id) same) (find_passes (has_id id) t e) in
    omega (
      arith,
      tally-update_first (is_live_result job) (has_id id) f t {x = r} e,
      tally-update_first (is_live_result job) (has_id id) g (patch id f t) {x = f r}
          (find-update_first (has_id id) f t {x = r} e hit),
    )
