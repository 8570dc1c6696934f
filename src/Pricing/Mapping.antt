-- ===== src/Pricing/Mapping.antt =====
-- The operator's mapping of a job onto a charge.
use ivis_backend.Base.{
  ℕ, ◌≡◌, ◌==◌, refl, false, not, Option, some, arith, Text, find_passes, find-map, ap, ◌&&◌, ◌∙◌,
}
use ivis_backend.Store.Entities.{Job, Charge, Db}
use ivis_backend.Store.Action.{Error, Reason, modify, ok, ◌>>◌, or_throw, throw_if}
use ivis_backend.Store.Runs.{bind_ok, or_throw_ok, throw_if_ok}
use ivis_backend.Store.Dao.{active_job, active_charge}
use ivis_backend.Pricing.{
  charge_for_job, own_vehicle_type, resolve_pricing_for_job, other_centre, set_charge, find_one,
  map_to, map_onto, with_charge, update_charge,
}

active_job-update_charge :
    (id : ℕ) (charge : Option ℕ) (db : Db) {j : Job}
    → active_job id db ≡ some j
    → active_job id (update_charge id charge db) ≡ some (record j { charge_id = charge })
active_job-update_charge id charge db {j} e =
    let passes = find_passes (λ q. q.id == id && not q.is_deleted) db.jobs e in
    find-map (λ q. q.id == id && not q.is_deleted) (with_charge id charge) (λ q. ground arith)
      db.jobs e
    ∙ ground arith

charge_for_job-mapped :
    (job : Job) (db : Db) {c : Charge}
    → active_charge c.id db ≡ some c
    → charge_for_job (record job { charge_id = some c.id }) (update_charge job.id (some c.id) db)
      ≡ some c
unfolding charge_for_job
charge_for_job-mapped job db {c} e = rw (e, charge_for_job)

find_one_ok : (id : ℕ) (db : Db) {j : Job} → active_job id db ≡ some j → find_one id db ≡ (ok j, db)
find_one_ok id db e = rw (e, find_one)

active_job-id : (id : ℕ) (db : Db) {j : Job} → active_job id db ≡ some j → j.id ≡ id
active_job-id id db e =
    let passes = find_passes (λ q. q.id == id && not q.is_deleted) db.jobs e in ground arith

map_to_ok :
    (j : Job) (cid : ℕ) (db : Db) {c : Charge}
    → active_charge cid db ≡ some c
    → other_centre c.centre_id j.centre_id ≡ false
    → map_to j (some cid) db ≡ (ok tt, update_charge j.id (some c.id) db)
map_to_ok j cid db {c} active here =
    bind_ok (or_throw (active_charge cid db) _) (map_onto j) (or_throw_ok _ active)
    ∙ bind_ok (throw_if _ _) (λ _. modify (update_charge j.id (some c.id)))
        (throw_if_ok (Error.bad_request Reason.charge_of_other_centre) here)

active_charge-own :
    (cid : ℕ) (db : Db) {c : Charge}
    → active_charge cid db ≡ some c
    → active_charge c.id db ≡ some c
active_charge-own cid db {c} e =
    let passes = find_passes (λ q. q.id == cid && not q.is_deleted) db.charges e in
    let same : c.id ≡ cid = ground arith in ap (λ k. active_charge k db) same ∙ e

set_charge_ok :
    (id cid : ℕ) (db : Db) {j : Job} {c : Charge}
    → active_job id db ≡ some j
    → active_charge cid db ≡ some c
    → other_centre c.centre_id j.centre_id ≡ false
    → set_charge id (some cid) db
      ≡ (ok (record j { charge_id = some c.id }), update_charge j.id (some c.id) db)
unfolding set_charge
set_charge_ok id cid db {j} {c} found active here =
    let same : j.id ≡ id = active_job-id id db found in
    bind_ok (find_one id) (λ x. map_to x (some cid) >> find_one id) (or_throw_ok _ found)
    ∙ bind_ok (map_to j (some cid)) (λ _. find_one id) (map_to_ok j cid db active here)
    ∙ find_one_ok id (update_charge j.id (some c.id) db) (
        ap (λ k. active_job id (update_charge k (some c.id) db)) same
        ∙ active_job-update_charge id (some c.id) db found)

-- Mapping a job that exists onto a charge that exists, and that is global or of the job's centre or
-- the job has no centre, succeeds, and from then on the job is priced by that charge, whatever its
-- vehicle: the price is the charge's grand total and the type shown is the charge's, with the job's
-- own type as the one it was mapped from.
pub set_charge-priced :
    (fetch : Text → Option ℕ) (id cid : ℕ) (db : Db) (j : Job) (c : Charge)
    → active_job id db ≡ some j
    → active_charge cid db ≡ some c
    → other_centre c.centre_id j.centre_id ≡ false
    → (mapped : Job) × (after : Db) × (set_charge id (some cid) db ≡ (ok mapped, after))
      × (active_job id after ≡ some mapped)
      × (let r = resolve_pricing_for_job fetch mapped after in
          (r.charge_missing ≡ false)
          × (r.charge_id ≡ some c.id)
          × (r.grand_total ≡ c.grand_total)
          × (r.vehicle_type ≡ some c.vehicle_type)
          × (r.mapped_from_vehicle_type ≡ own_vehicle_type j db))
unfolding resolve_pricing_for_job own_vehicle_type
set_charge-priced fetch id cid db j c found active here =
    let by_charge = charge_for_job-mapped j db (active_charge-own cid db active) in
    (
      record j { charge_id = some c.id },
      update_charge j.id (some c.id) db,
      set_charge_ok id cid db found active here,
      ap (λ k. active_job id (update_charge k (some c.id) db)) (active_job-id id db found)
          ∙ active_job-update_charge id (some c.id) db found,
      (
        rw (by_charge, resolve_pricing_for_job) refl,
        rw (by_charge, resolve_pricing_for_job) refl,
        rw (by_charge, resolve_pricing_for_job) refl,
        rw (by_charge, resolve_pricing_for_job) (ground arith),
        rw (by_charge, resolve_pricing_for_job) (ground arith),
      ),
    )
