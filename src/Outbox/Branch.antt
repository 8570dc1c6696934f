-- ===== src/Outbox/Branch.antt =====
-- The branch guard: outside production nothing is queued for a live branch.
use ivis_backend.Base.{
  ℕ, ◌≡◌, true, false, arith, inl, inr, Text, text, text_eq→eq, All-append_one, All-update_first,
  All-find, sym, ◌∙◌, All, Bool-cases, Option-cases, trim, to_upper, to_upper-trim_idem, is_some,
}
use ivis_backend.Outbox.Row.{TajdeedOutbox}
use ivis_backend.Outbox.Dao.{
  Table, save, find_by_id, has_id, find_by_transaction_id, has_transaction,
}
use ivis_backend.Outbox.Backoff.{is_branch_writable}
use ivis_backend.Outbox.Service.{
  EnqueueInput, existing_result, enqueue, repush, queued_row, successor,
}

-- Every queued row is for the sandbox branch.
abbrev pub IsForSandbox : TajdeedOutbox → Type 0
IsForSandbox r = r.branch_code ≡ text "SBX"

abbrev pub IsSandboxed : Table → Type 0
IsSandboxed t = All IsForSandbox t

save-IsSandboxed :
    (row : TajdeedOutbox) (t : Table) → IsForSandbox row → IsSandboxed t → IsSandboxed (save row t)
save-IsSandboxed row t e h = elim (Option-cases (find_by_id row.id t)) [
  | inl new ↦ rw (new, save) (All-append_one IsForSandbox t row h e)
  | inr (old, there) ↦
      rw (there, save) (All-update_first IsForSandbox (has_id row.id) (λ _. row) (λ r p. e) t h)
]

writable_sandbox :
    (branch : Text) → is_branch_writable false branch ≡ true → to_upper (trim branch) ≡ text "SBX"
unfolding is_branch_writable
writable_sandbox branch h = sym (text_eq→eq (text "SBX") (to_upper (trim branch)) (ground arith))

repush-IsSandboxed :
    (now : ℕ) (fresh : ℕ × ℕ) (transaction_id run_at : ℕ) (t : Table)
    → IsSandboxed t
    → IsSandboxed (repush now fresh transaction_id run_at t).1
unfolding repush
repush-IsSandboxed now fresh transaction_id run_at t h =
    elim (Option-cases (find_by_transaction_id transaction_id t)) [
      | inl nothing ↦ rw (nothing, repush) h
      | inr (original, found) ↦
          rw (found, repush)
            (save-IsSandboxed (successor now fresh run_at original) t
              (All-find IsForSandbox (has_transaction transaction_id) t h found) h)
    ]

-- Outside production queueing keeps every row on the sandbox branch: an event for any other branch
-- is refused, whatever the spelling of its code.
pub enqueue-IsSandboxed :
    (now : ℕ) (fresh : ℕ × ℕ) (input : EnqueueInput) (t : Table)
    → IsSandboxed t
    → let (queued, t') = enqueue false now fresh input t in
      IsSandboxed t' × (is_some queued ≡ true → to_upper (trim input.branch_code) ≡ text "SBX")
unfolding enqueue
enqueue-IsSandboxed now fresh input t h =
    let branch = to_upper (trim input.branch_code) in
    elim (Bool-cases (is_branch_writable false branch)) [
      | inr blocked ↦ rw blocked (h, λ e. cc)
      | inl writable ↦
          let sandbox : branch ≡ text "SBX" =
            sym (to_upper-trim_idem input.branch_code) ∙ writable_sandbox branch writable in
          elim (Option-cases (existing_result input.event_type input.job_id t)) [
            | inr (q, there) ↦ rw (writable, there) (h, λ e. sandbox)
            | inl room ↦
                rw (writable, room)
                  (save-IsSandboxed (queued_row now fresh input branch) t sandbox h, λ e. sandbox)
          ]
    ]
