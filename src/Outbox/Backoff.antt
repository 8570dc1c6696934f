-- ===== src/Outbox/Backoff.antt =====
-- integrations/appointments/appointment.constants.ts: the retry schedule and the branch guard.
use Prim.Native.Nat.{min}
use ivis_backend.Base.{
  ℕ, zero, suc, ◌-◌, ◌*◌, Bool, true, false, List, [], ◌∷◌, any, length, Text, text, text_eq, trim,
  to_upper,
}

abbrev pub push_retry_backoff_seconds : List ℕ
push_retry_backoff_seconds = 0 ∷ 10 ∷ 30 ∷ 60 ∷ 300 ∷ []

-- `xs[i]`; the program indexes within the list.
abbrev element : List ℕ → ℕ → ℕ
element [] i = 0
element (x ∷ xs) zero = x
element (x ∷ xs) (suc i) = element xs i

unfoldable pub next_retry_delay_ms : ℕ → ℕ
next_retry_delay_ms attempt_count =
    element push_retry_backoff_seconds (min attempt_count (length push_retry_backoff_seconds - 1))
    * 1000

abbrev pub writable_non_production_branches : List Text
writable_non_production_branches = text "SBX" ∷ []

unfoldable pub is_branch_writable : Bool → Text → Bool
is_branch_writable true branch_code = true
is_branch_writable false branch_code =
    any (λ code. text_eq code (to_upper (trim branch_code))) writable_non_production_branches
