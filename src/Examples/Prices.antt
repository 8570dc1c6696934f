-- ===== src/Examples/Prices.antt =====
-- The theorems on pricing, applied to the example centre.
use ivis_backend.Base.{ℕ, ◌≡◌, ◌≢◌, refl, false, some, ◌⊎◌, text, trim, to_lower}
use ivis_backend.Store.Entities.{Job, Db}
use ivis_backend.Store.Action.{Error, Reason, ok, err}
use ivis_backend.Store.Dao.{find_by_vehicle_type, active_job}
use ivis_backend.Pricing.{
  advance_of, is_allowed_amount, charge_for_job, own_vehicle_type, resolve_pricing_for_job,
  set_charge, assert_amount_matches_charge,
}
use ivis_backend.Pricing.Mapping.{set_charge-priced}
use ivis_backend.Pricing.Amounts.{assert_amount_iff}
use ivis_backend.Examples.Shop.{no_advance, walk_in, sedan, shop}

set_charge-priced_example :
    (mapped : Job) × (after : Db) × (set_charge 10 (some 21) shop ≡ (ok mapped, after))
    × (active_job 10 after ≡ some mapped)
    × (let r = resolve_pricing_for_job no_advance mapped after in
        (r.charge_missing ≡ false)
        × (r.charge_id ≡ some 21)
        × (r.grand_total ≡ 30000)
        × (r.vehicle_type ≡ some (text "sedan"))
        × (r.mapped_from_vehicle_type ≡ own_vehicle_type walk_in shop))
set_charge-priced_example = set_charge-priced no_advance 10 21 shop walk_in sedan refl refl refl

-- Five rials, in thousandths.
abbrev rials : ℕ
rials = 5000

assert_amount_iff_example :
    let answer = assert_amount_matches_charge no_advance (some 10) 50000 shop in
    ((rials ≡ 0) ⊎ (rials ≡ rials) ⊎ (rials ≡ rials) → answer ≡ (ok tt, shop))
    × (rials ≢ 0
        → rials ≢ rials
        → rials ≢ rials
        → answer ≡ (err (Error.bad_request Reason.amount_mismatch), shop))
unfolding resolve_pricing_for_job charge_for_job to_lower trim find_by_vehicle_type advance_of
    is_allowed_amount
assert_amount_iff_example =
    assert_amount_iff no_advance 10 shop walk_in 5000 5000 5000 refl refl refl refl
