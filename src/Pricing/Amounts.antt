-- ===== src/Pricing/Amounts.antt =====
-- Which amounts a payment for a job may carry.
use ivis_backend.Base.{
  ℕ, ◌*◌, ◌≡◌, ◌↔◌, ◌⊎◌, ◌≢◌, ◌∙◌, Bool, true, false, not, Option, some, arith, Text, inl, inr,
  ◌&&◌, refl,
}
use ivis_backend.Store.Entities.{Job, Db}
use ivis_backend.Store.Action.{Error, Reason, ok, err, throw_if, ◌>>=◌, gets}
use ivis_backend.Store.Runs.{throw_if_ok, throw_if_err}
use ivis_backend.Store.Dao.{active_job}
use ivis_backend.Pricing.{
  JobPricingResult, resolve_pricing_for_job, matches, is_allowed_amount,
  assert_amount_matches_charge,
}

-- Amounts of whole thousandths match exactly if they are equal: the tolerance lets no other through.
pub matches_iff : (a b : ℕ) → (matches (10 * a) (10 * b) ≡ true) ↔ (a ≡ b)
matches_iff a b = ground arith

is_allowed_iff :
    (pricing : JobPricingResult) (posted payable total : ℕ)
    → pricing.payable ≡ 10 * payable
    → pricing.grand_total ≡ 10 * total
    → (is_allowed_amount pricing (10 * posted) ≡ true)
      ↔ ((posted ≡ 0) ⊎ (posted ≡ payable) ⊎ (posted ≡ total))
unfolding is_allowed_amount
is_allowed_iff pricing posted payable total p t = ground arith

passes :
    {missing allowed : Bool}
    → allowed ≡ true
    → missing ≡ false
    → (not missing && not allowed) ≡ false
passes h e = ground arith

refused :
    {missing allowed : Bool}
    → (allowed ≢ true)
    → missing ≡ false
    → (not missing && not allowed) ≡ true
refused {allowed = true} h e = absurd (h refl)
refused {allowed = false} h e = ground arith

assert_amount_for :
    (fetch : Text → Option ℕ) (id posted : ℕ) (db : Db) {j : Job}
    → active_job id db ≡ some j
    → assert_amount_matches_charge fetch (some id) posted db
      ≡ throw_if
          (not (resolve_pricing_for_job fetch j db).charge_missing
            && not (is_allowed_amount (resolve_pricing_for_job fetch j db) posted))
          (Error.bad_request Reason.amount_mismatch)
          db
unfolding assert_amount_matches_charge
assert_amount_for fetch id posted db {j} e = rw (e, assert_amount_matches_charge, ◌>>=◌, gets) refl

-- For a job that can be priced, and amounts in whole thousandths of a rial, the check of a payment
-- passes if and only if the posted amount is 0, the payable or the grand total; otherwise it answers
-- that the amount does not match. It changes nothing in either case.
pub assert_amount_iff :
    (fetch : Text → Option ℕ) (id : ℕ) (db : Db) (j : Job) (posted payable total : ℕ)
    → active_job id db ≡ some j
    → (resolve_pricing_for_job fetch j db).charge_missing ≡ false
    → (resolve_pricing_for_job fetch j db).payable ≡ 10 * payable
    → (resolve_pricing_for_job fetch j db).grand_total ≡ 10 * total
    → let answer = assert_amount_matches_charge fetch (some id) (10 * posted) db in
      ((posted ≡ 0) ⊎ (posted ≡ payable) ⊎ (posted ≡ total) → answer ≡ (ok tt, db))
      × (posted ≢ 0
          → posted ≢ payable
          → posted ≢ total
          → answer ≡ (err (Error.bad_request Reason.amount_mismatch), db))
assert_amount_iff fetch id db j posted payable total found priced p t =
    let is = is_allowed_iff (resolve_pricing_for_job fetch j db) posted payable total p t in
    let run = assert_amount_for fetch id (10 * posted) db found in
    (
      (λ one. run ∙ throw_if_ok _ (passes (is.1 one) priced)),
      (λ a b c.
          run
          ∙ throw_if_err _ (
              refused
                (λ yes. elim (is.0 yes) [ inl x ↦ a x | inr (inl x) ↦ b x | inr (inr x) ↦ c x ])
                priced)),
    )
