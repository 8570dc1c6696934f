-- ===== src/Pricing/Laws.antt =====
-- Where a job's price comes from, and how payments lower what is still to pay.
use ivis_backend.Base.{
  ℕ, ◌+◌, ◌-◌, ◌≡◌, refl, Bool, false, Option, none, some, List, [], ◌∷◌, ◌++◌, arith, Text, inl,
  inr, Option-cases, keep, find, find_passes, text_eq→eq, if◌then◌else◌, sym, or_else-cases, ◌&&◌,
  ◌⊎◌, ◌∙◌,
}
use ivis_backend.Store.Entities.{Job, Payment, Charge, Db}
use ivis_backend.Store.Dao.{
  is_settled_for_job, find_by_combo, find_by_vehicle_type, centre_is, is_offered,
}
use ivis_backend.Pricing.{
  charge_by_type, charge_for_job, own_vehicle_type, own_category, sum_of, advance_of,
  resolve_pricing_for_job, other_centre,
}

sum_of-keep_append :
    (p : Payment → Bool) (xs : List Payment) (y : Payment)
    → sum_of (keep p (xs ++ y ∷ [])) ≡ sum_of (keep p xs) + (if p y then y.grand_total else 0)
sum_of-keep_append p [] y = ground arith
sum_of-keep_append p (x ∷ xs) y = ground (arith, sum_of-keep_append p xs y)

abbrev pub with_payment : Payment → Db → Db
with_payment p db = record db { payments = db.payments ++ p ∷ [] }

charge_for_job-with_payment :
    (job : Job) (p : Payment) (db : Db)
    → charge_for_job job (with_payment p db) ≡ charge_for_job job db
unfolding charge_for_job
charge_for_job-with_payment job p db = refl

advance_of-with_payment :
    (fetch : Text → Option ℕ) (job : Job) (p : Payment) (db : Db)
    → advance_of fetch job (with_payment p db)
      ≡ advance_of fetch job db + (if is_settled_for_job job.id p then p.grand_total else 0)
unfolding advance_of
advance_of-with_payment fetch job p db =
    omega (arith, sum_of-keep_append (is_settled_for_job job.id) db.payments p)

-- A new payment lowers what a job still has to pay by its amount, down to 0, if it is settled for
-- that job; a cancelled or deleted payment, or one of another job, changes nothing; and the grand
-- total stays.
pub payable-with_payment :
    (fetch : Text → Option ℕ) (job : Job) (p : Payment) (db : Db)
    → let before = resolve_pricing_for_job fetch job db in
      let after = resolve_pricing_for_job fetch job (with_payment p db) in
      (after.payable ≡ before.payable - (if is_settled_for_job job.id p then p.grand_total else 0))
      × (after.grand_total ≡ before.grand_total)
unfolding resolve_pricing_for_job
payable-with_payment fetch job p db = elim (Option-cases (charge_for_job job db)) [
  | inl nothing ↦
      rw (charge_for_job-with_payment job p db, resolve_pricing_for_job)
        (rw (nothing, resolve_pricing_for_job) (omega arith, refl))
  | inr (charge, found) ↦
      rw (charge_for_job-with_payment job p db, resolve_pricing_for_job)
        (rw (found, resolve_pricing_for_job)
          (omega (arith, advance_of-with_payment fetch job p db), refl))
]

-- What is asked of a charge that prices a vehicle type at a centre.
pub record Suits (centre : Option ℕ) (type : Text) (c : Charge) : Type 0 where
  pub at_centre : other_centre c.centre_id centre ≡ false
  pub is_kept : c.is_deleted ≡ false
  pub for_type : type ≡ c.vehicle_type

combo_Suits :
    (centre : Option ℕ) (type : Text) (category : ℕ) (charges : List Charge) {c : Charge}
    → find_by_combo centre type category charges ≡ some c
    → Suits centre type c
unfolding find_by_combo
combo_Suits centre type category charges {c} e =
    let passes = find_passes _ charges e in
    record {
      at_centre = ground arith;
      is_kept = ground arith;
      for_type = sym (text_eq→eq c.vehicle_type type (ground arith));
    }

offered_Suits :
    (centre k : Option ℕ) (type : Text) (charges : List Charge) {c : Charge}
    → (k ≡ centre) ⊎ (k ≡ none)
    → find (λ q. is_offered type q && centre_is k q.centre_id) charges ≡ some c
    → Suits centre type c
offered_Suits centre k type charges {c} which e =
    let passes = find_passes (λ q. is_offered type q && centre_is k q.centre_id) charges e in
    record {
      at_centre = ground arith;
      is_kept = ground arith;
      for_type = sym (text_eq→eq c.vehicle_type type (ground arith));
    }

vehicle_type_Suits :
    (centre : Option ℕ) (type : Text) (charges : List Charge) {c : Charge}
    → find_by_vehicle_type centre type charges ≡ some c
    → Suits centre type c
unfolding find_by_vehicle_type
vehicle_type_Suits none type charges e = offered_Suits none none type charges (inl refl) e
vehicle_type_Suits (some k) type charges e =
    elim (or_else-cases (find (λ q. is_offered type q && centre_is (some k) q.centre_id) charges) _
      e) [
        | inl own ↦ offered_Suits (some k) (some k) type charges (inl refl) own
        | inr global ↦ offered_Suits (some k) none type charges (inr refl) global
      ]

charge_by_type_sound :
    (centre : Option ℕ) (type : Option Text) (category : Option ℕ) (charges : List Charge)
    {c : Charge}
    → charge_by_type centre type category charges ≡ some c
    → (type ≡ some c.vehicle_type) × Suits centre c.vehicle_type c
unfolding charge_by_type
charge_by_type_sound centre none category charges e = cc
charge_by_type_sound centre (some []) category charges e = cc
charge_by_type_sound centre (some (a ∷ s)) none charges {c} e =
    let suits = vehicle_type_Suits centre (a ∷ s) charges e in
    (
      cc (suits.for_type),
      record { at_centre = suits.at_centre; is_kept = suits.is_kept; for_type = refl },
    )
charge_by_type_sound centre (some (a ∷ s)) (some k) charges {c} e =
    let suits : Suits centre (a ∷ s) c =
      elim (or_else-cases (find_by_combo centre (a ∷ s) k charges) _ e) [
        | inl combo ↦ combo_Suits centre (a ∷ s) k charges combo
        | inr alone ↦ vehicle_type_Suits centre (a ∷ s) charges alone
      ] in
    (
      cc (suits.for_type),
      record { at_centre = suits.at_centre; is_kept = suits.is_kept; for_type = refl },
    )

charge_for_job-unmapped :
    (job : Job) (db : Db)
    → job.charge_id ≡ none
    → charge_for_job job db
      ≡ charge_by_type job.centre_id (own_vehicle_type job db) (own_category job db) db.charges
unfolding charge_for_job
charge_for_job-unmapped job db h = rw (h, charge_for_job)

-- A job that no operator has mapped is priced, if at all, by a charge that is not deleted, that is for
-- the job's own vehicle type, and that is global or of the job's centre (any centre, if the job has
-- none); the price is that charge's grand total, and what is payable is it less the advance.
pub resolve_pricing_for_job-unmapped :
    (fetch : Text → Option ℕ) (job : Job) (db : Db)
    → job.charge_id ≡ none
    → (resolve_pricing_for_job fetch job db).charge_missing ≡ false
    → let r = resolve_pricing_for_job fetch job db in
      (c : Charge) × (r.charge_id ≡ some c.id)
      × (own_vehicle_type job db ≡ some c.vehicle_type)
      × Suits job.centre_id c.vehicle_type c
      × (r.grand_total ≡ c.grand_total)
      × (r.payable ≡ c.grand_total - r.advance)
unfolding resolve_pricing_for_job
resolve_pricing_for_job-unmapped fetch job db unmapped priced =
    elim (Option-cases (charge_for_job job db)) [
      | inl nothing ↦ absurd (let p = rw (nothing, resolve_pricing_for_job) at priced in cc)
      | inr (c, found) ↦
          let (same, suits) =
            charge_by_type_sound job.centre_id (own_vehicle_type job db) (own_category job db)
              db.charges (sym (charge_for_job-unmapped job db unmapped) ∙ found) in
          (
            c,
            rw (found, resolve_pricing_for_job),
            same,
            suits,
            rw (found, resolve_pricing_for_job),
            rw (found, resolve_pricing_for_job),
          )
    ]
