-- ===== src/Outbox/Schedule.antt =====
-- The retry schedule, the meaning of the provider's replies, and the branch guard.
use Prim.Native.Nat.{min}
use ivis_backend.Base.{
  ℕ, zero, suc, ◌≤◌, ◌≡◌, true, false, Option, arith, ◌↔◌, ◌&&◌, ◌||◌, inl, inr, Bool-cases,
}
use ivis_backend.Outbox.Backoff.{next_retry_delay_ms}
use ivis_backend.Outbox.Provider.{
  is_retryable, is_delivered, Reply, Body, code_of, code_is, is_ok, is_transient, push_outcome,
}

next_retry_delay_ms_late : (n : ℕ) → 4 ≤ n → next_retry_delay_ms n ≡ 300000
unfolding next_retry_delay_ms
next_retry_delay_ms_late n h = let e : min n 4 ≡ 4 = omega arith in rw (e, next_retry_delay_ms)

-- Every retry waits between 10 seconds and 5 minutes and never less than the one before it, and
-- from the fourth on the wait is 5 minutes.
pub next_retry_delay_ms_bounds :
    (n : ℕ)
    → (10000 ≤ next_retry_delay_ms (suc n))
      × (next_retry_delay_ms (suc n) ≤ 300000)
      × (next_retry_delay_ms n ≤ next_retry_delay_ms (suc n))
      × (4 ≤ n → next_retry_delay_ms n ≡ 300000)
next_retry_delay_ms_bounds zero = unfold next_retry_delay_ms in ground arith
next_retry_delay_ms_bounds (suc zero) = unfold next_retry_delay_ms in ground arith
next_retry_delay_ms_bounds (suc (suc zero)) = unfold next_retry_delay_ms in ground arith
next_retry_delay_ms_bounds (suc (suc (suc zero))) = unfold next_retry_delay_ms in ground arith
next_retry_delay_ms_bounds (suc (suc (suc (suc n)))) =
    let now = next_retry_delay_ms_late (suc (suc (suc (suc n)))) (omega arith) in
    let next = next_retry_delay_ms_late (suc (suc (suc (suc (suc n))))) (omega arith) in
    (omega arith, omega arith, omega arith, λ h. now)

-- A reply is worth another try exactly if it is a 429 or a 5xx that does not carry the duplicate
-- code; and a push counts as delivered exactly if the reply is a 2xx with the success code, or
-- carries the duplicate code.
pub push_outcome_iff :
    (status : ℕ) (body : Option Body)
    → let outcome = push_outcome (Reply.http status body) in
      let duplicate = code_is "E0007" (code_of body) in
      ((is_retryable outcome ≡ true) ↔ ((is_transient status ≡ true) × (duplicate ≡ false)))
      × ((is_delivered outcome ≡ true)
          ↔ ((is_ok status && code_is "E0000" (code_of body) || duplicate) ≡ true))
unfolding push_outcome
push_outcome_iff status body = elim (Bool-cases (code_is "E0000" (code_of body))) [
  | inl success ↦ elim (Bool-cases (code_is "E0007" (code_of body))) [
    | inl duplicate ↦ rw (success, duplicate) (ground arith)
    | inr fresh ↦ rw (success, fresh) (ground arith)
  ]
  | inr other ↦ elim (Bool-cases (code_is "E0007" (code_of body))) [
    | inl duplicate ↦ rw (other, duplicate) (ground arith)
    | inr fresh ↦ rw (other, fresh) (ground arith)
  ]
]
