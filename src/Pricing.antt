-- ===== src/Pricing.antt =====
-- What a job costs: `resolvePricingForJob` and `setCharge` of jobs/services/job.service.ts, and
-- `assertAmountMatchesCharge` of transactions/payments/services/payments.service.ts. The answer of
-- the payment API (an advance by plate) is the parameter `fetch_by_plate`.
pub mod Laws
pub mod Amounts
pub mod Mapping
use Prim.Native.Nat.{max}
use ivis_backend.Base.{
  ℕ, ◌+◌, ◌-◌, ◌==◌, ltb, Bool, true, false, ◌&&◌, not, Option, none, some, List, [], ◌∷◌, Text,
  trim, to_lower, or_else, any, some_is, map, if◌then◌else◌,
}
use ivis_backend.Store.Entities.{VehicleMaster, VehicleRecord, Job, Payment, Charge, Db}
use ivis_backend.Store.Action.{
  Action, Error, Resource, Reason, pure, throw, gets, or_throw, ◌>>=◌, ◌>>◌, throw_if, modify,
}
use ivis_backend.Store.Dao.{
  active_job, active_charge, vehicle_record_of, next_payments_id, find_settled_by_job,
  find_by_combo, find_by_vehicle_type,
}

pub record JobPricingResult : Type 0 where
  pub charge_missing : Bool
  pub vehicle_type : Option Text
  pub charge_category_id : Option ℕ
  pub charge_id : Option ℕ
  pub mapped_from_vehicle_type : Option Text
  pub center_charges : ℕ
  pub rop_charges : ℕ
  pub vat_percent : ℕ
  pub grand_total : ℕ
  pub advance : ℕ
  pub payable : ℕ
  pub next_payment_id : ℕ

abbrev pub then_by {ℓ κ} : {A : Type ℓ} {B : Type κ} → Option A → (A → Option B) → Option B
then_by none f = none
then_by (some a) f = f a

-- `raw ? raw.trim().toLowerCase() : null`; the empty text is falsy.
abbrev pub normal_type : Option Text → Option Text
normal_type none = none
normal_type (some []) = none
normal_type (some (c ∷ s)) = some (to_lower (trim (c ∷ s)))

-- The job's own vehicle type: the record's, else the master's.
unfoldable pub own_vehicle_type : Job → Db → Option Text
own_vehicle_type job db =
    let vehicle = vehicle_record_of job.vehicle_record_id db in
    normal_type (
      or_else (then_by vehicle (λ v. v.vehicle_type))
        (then_by (then_by vehicle (λ v. v.vehicle_master)) (λ m. m.vehicle_type)))

unfoldable pub own_category : Job → Db → Option ℕ
own_category job db =
    then_by (then_by (vehicle_record_of job.vehicle_record_id db) (λ v. v.vehicle_master))
      (λ m. m.charge_category_id)

-- The lookup by type: the combination if a category is known, else the type alone.
unfoldable pub charge_by_type : Option ℕ → Option Text → Option ℕ → List Charge → Option Charge
charge_by_type centre none category charges = none
charge_by_type centre (some []) category charges = none
charge_by_type centre (some (c ∷ s)) category charges =
    or_else (then_by category (λ k. find_by_combo centre (c ∷ s) k charges))
      (find_by_vehicle_type centre (c ∷ s) charges)

-- An operator's mapping comes first; a mapping to a charge that is gone falls back.
unfoldable pub charge_for_job : Job → Db → Option Charge
unfolding charge_by_type own_vehicle_type own_category
charge_for_job job db =
    or_else (then_by job.charge_id (λ id. active_charge id db))
      (charge_by_type job.centre_id (own_vehicle_type job db) (own_category job db) db.charges)

-- `settled.reduce((sum, p) => sum + p.grand_total, 0)`
abbrev pub sum_of : List Payment → ℕ
sum_of [] = 0
sum_of (p ∷ ps) = p.grand_total + sum_of ps

abbrev advance_by_plate : (Text → Option ℕ) → Option VehicleRecord → ℕ
advance_by_plate fetch none = 0
advance_by_plate fetch (some v) = elim v.plate_number [
  | [] ↦ 0
  | c ∷ s ↦ elim (fetch (c ∷ s)) [ none ↦ 0 | some advance ↦ advance ]
]

-- The money already taken: what the payment API reports, and the settled payments of the job.
unfoldable pub advance_of : (Text → Option ℕ) → Job → Db → ℕ
advance_of fetch job db =
    advance_by_plate fetch (vehicle_record_of job.vehicle_record_id db)
    + sum_of (find_settled_by_job job.id db)

abbrev pub missing : Job → Db → JobPricingResult
missing job db = record {
  charge_missing = true;
  vehicle_type = own_vehicle_type job db;
  charge_category_id = own_category job db;
  charge_id = none;
  mapped_from_vehicle_type = none;
  center_charges = 0;
  rop_charges = 0;
  vat_percent = 0;
  grand_total = 0;
  advance = 0;
  payable = 0;
  next_payment_id = next_payments_id db;
}

-- `max(0, grandTotal - advance)` is the truncated difference of the two amounts.
abbrev pub priced_at : Job → Db → ℕ → Charge → JobPricingResult
priced_at job db advance charge =
    let mapped = some_is job.charge_id charge.id in
    record {
      charge_missing = false;
      vehicle_type = if mapped then some charge.vehicle_type else own_vehicle_type job db;
      charge_category_id = if mapped then charge.charge_category_id else own_category job db;
      charge_id = some charge.id;
      mapped_from_vehicle_type = if mapped then own_vehicle_type job db else none;
      center_charges = charge.center_charges;
      rop_charges = charge.rop_charges;
      vat_percent = charge.vat_percent;
      grand_total = charge.grand_total;
      advance = advance;
      payable = charge.grand_total - advance;
      next_payment_id = next_payments_id db;
    }

unfoldable pub resolve_pricing_for_job : (Text → Option ℕ) → Job → Db → JobPricingResult
resolve_pricing_for_job fetch job db = elim (charge_for_job job db) [
  | none ↦ missing job db
  | some charge ↦ priced_at job db (advance_of fetch job db) charge
]

-- `UPDATE jobs SET charge_id = … WHERE id = …`
abbrev pub with_charge : ℕ → Option ℕ → Job → Job
with_charge id charge_id j = if j.id == id then record j { charge_id = charge_id } else j

abbrev pub update_charge : ℕ → Option ℕ → Db → Db
update_charge id charge_id db = record db { jobs = map (with_charge id charge_id) db.jobs }

-- `charge.centre_id && job.centre_id && charge.centre_id !== job.centre_id`
abbrev pub other_centre : Option ℕ → Option ℕ → Bool
other_centre (some a) (some b) = not (a == b)
other_centre _ _ = false

abbrev pub find_one : ℕ → Action Job
find_one id = do or_throw (← gets (active_job id)) (Error.not_found Resource.job)

abbrev pub map_onto : Job → Charge → Action (Unit {0})
map_onto job c = do
  throw_if (other_centre c.centre_id job.centre_id)
      (Error.bad_request Reason.charge_of_other_centre)
  modify (update_charge job.id (some c.id))

abbrev pub map_to : Job → Option ℕ → Action (Unit {0})
map_to job none = modify (update_charge job.id none)
map_to job (some id) = do
  charge ← or_throw (← gets (active_charge id)) (Error.bad_request Reason.charge_gone)
  map_onto job charge

unfoldable pub set_charge : ℕ → Option ℕ → Action Job
set_charge id charge_id = do job ← find_one id; map_to job charge_id; find_one id

-- |posted - allowed| < 0.0005
abbrev pub matches : ℕ → ℕ → Bool
matches posted allowed = ltb (max (posted - allowed) (allowed - posted)) 5

unfoldable pub is_allowed_amount : JobPricingResult → ℕ → Bool
is_allowed_amount pricing posted =
    any (matches posted) (0 ∷ pricing.payable ∷ pricing.grand_total ∷ [])

-- `assertAmountMatchesCharge`, on the `job_id` and `grand_total` of the payment.
unfoldable pub assert_amount_matches_charge : (Text → Option ℕ) → Option ℕ → ℕ → Action (Unit {0})
assert_amount_matches_charge fetch none posted = pure tt
assert_amount_matches_charge fetch (some id) posted = do
  job ← gets (active_job id)
  elim job [
    | none ↦ pure tt
    | some j ↦ do
      pricing ← gets (resolve_pricing_for_job fetch j)
      throw_if (not pricing.charge_missing && not (is_allowed_amount pricing posted))
          (Error.bad_request Reason.amount_mismatch)
  ]
