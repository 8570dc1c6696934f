-- ===== src/Store/Dao.antt =====
-- The queries of database/dao that the modelled services make.
use Prim.Native.Nat.{max}
use ivis_backend.Base.{
  ℕ, ◌+◌, ◌==◌, Bool, true, false, ◌&&◌, ◌||◌, not, Option, none, some, List, [], ◌∷◌, ◌++◌,
  some_is, or_else, find, keep, update_first, any, Text, text, text_eq,
}
use ivis_backend.Store.Entities.{
  VehicleRecord, Customer, Appointment, Job, Payment, Charge, Db, is_cancelled,
}
use ivis_backend.Store.Action.{Action, Error, ◌>>=◌, ◌>>◌, throw_if, modify, gets}

-- `findActiveById` of each table.
abbrev pub active_customer : ℕ → Db → Option Customer
active_customer id db = find (λ c. c.id == id && not c.is_deleted) db.customers

abbrev pub active_vehicle_record : ℕ → Db → Option VehicleRecord
active_vehicle_record id db = find (λ v. v.id == id && not v.is_deleted) db.vehicle_records

abbrev pub active_appointment : ℕ → Db → Option Appointment
active_appointment id db = find (λ a. a.id == id && not a.is_deleted) db.appointments

abbrev pub active_job : ℕ → Db → Option Job
active_job id db = find (λ j. j.id == id && not j.is_deleted) db.jobs

abbrev pub active_payment : ℕ → Db → Option Payment
active_payment id db = find (λ p. p.id == id && not p.is_deleted) db.payments

abbrev pub active_charge : ℕ → Db → Option Charge
active_charge id db = find (λ c. c.id == id && not c.is_deleted) db.charges

-- The relation `vehicleRecord`, which is joined whether it is deleted or not.
abbrev pub vehicle_record_of : ℕ → Db → Option VehicleRecord
vehicle_record_of id db = find (λ v. v.id == id) db.vehicle_records

abbrev pub customer_of : ℕ → Db → Option Customer
customer_of id db = find (λ c. c.id == id) db.customers

-- `findByPlateNumber` of vehicle-record.dao.ts.
abbrev pub find_by_plate_number : Text → Db → Option VehicleRecord
find_by_plate_number plate db =
    find (λ v. text_eq v.plate_number plate && not v.is_deleted) db.vehicle_records

-- `SELECT MAX(column)`, 0 on an empty table.
abbrev pub max_of : {A : Type 0} → (A → ℕ) → List A → ℕ
max_of f [] = 0
max_of f (x ∷ xs) = max (f x) (max_of f xs)

abbrev pub next_job_id : Db → ℕ
next_job_id db = max_of (λ (j : Job). j.job_id) db.jobs + 1

abbrev pub next_payments_id : Db → ℕ
next_payments_id db = max_of (λ (p : Payment). p.payment_id) db.payments + 1

abbrev pub next_vehicle_record_id : Db → ℕ
next_vehicle_record_id db =
    max_of (λ (v : VehicleRecord). v.vehicle_record_id) db.vehicle_records + 1

-- job.dao.ts
abbrev pub find_by_job_number : ℕ → Db → Option Job
find_by_job_number number db = find (λ j. j.job_id == number && not j.is_deleted) db.jobs

-- payments.dao.ts; the rows stand in the order in which they were created.
abbrev pub find_by_payments_id : ℕ → Db → Option Payment
find_by_payments_id number db = find (λ p. p.payment_id == number && not p.is_deleted) db.payments

abbrev pub find_payment_by_job : ℕ → Db → Option Payment
find_payment_by_job job db = find (λ p. some_is p.job_id job && not p.is_deleted) db.payments

abbrev pub is_settled_for_job : ℕ → Payment → Bool
is_settled_for_job job p = some_is p.job_id job && (not p.is_deleted && not (is_cancelled p.status))

abbrev pub find_settled_by_job : ℕ → Db → List Payment
find_settled_by_job job db = keep (is_settled_for_job job) db.payments

abbrev pub find_settled_by_appointment : ℕ → Db → Option Payment
find_settled_by_appointment appointment db =
    find
      (λ p.
        some_is p.appointment_id appointment && (not p.is_deleted && not (is_cancelled p.status)))
      db.payments

-- `findOne({ where: { appointment_id, is_deleted: false } })`
abbrev pub find_payment_by_appointment : ℕ → Db → Option Payment
find_payment_by_appointment appointment db =
    find (λ p. some_is p.appointment_id appointment && not p.is_deleted) db.payments

-- charge.dao.ts. `centreId ?? IsNull()`.
abbrev pub centre_is : Option ℕ → Option ℕ → Bool
centre_is none none = true
centre_is (some a) (some b) = a == b
centre_is _ _ = false

unfoldable pub find_by_combo : Option ℕ → Text → ℕ → List Charge → Option Charge
find_by_combo centre vehicle_type category charges =
    find
      (λ c.
        centre_is centre c.centre_id
        && (text_eq c.vehicle_type vehicle_type
            && (some_is c.charge_category_id category && not c.is_deleted)))
      charges

abbrev pub is_offered : Text → Charge → Bool
is_offered vehicle_type c =
    text_eq c.vehicle_type vehicle_type
    && (text_eq c.status (text "Active") && (c.is_enabled && not c.is_deleted))

unfoldable pub find_by_vehicle_type : Option ℕ → Text → List Charge → Option Charge
find_by_vehicle_type none vehicle_type charges =
    find (λ c. is_offered vehicle_type c && centre_is none c.centre_id) charges
find_by_vehicle_type (some centre) vehicle_type charges =
    or_else (find (λ c. is_offered vehicle_type c && centre_is (some centre) c.centre_id) charges)
      (find (λ c. is_offered vehicle_type c && centre_is none c.centre_id) charges)

-- INSERT into `jobs`: `job_id` is unique over all rows, the deleted ones too.
abbrev pub insert_job : Job → Action (Unit {0})
insert_job job = do
  throw_if (← gets (λ db. any (λ j. j.job_id == job.job_id) db.jobs)) Error.database
  modify (λ db. record db { jobs = db.jobs ++ job ∷ [] })

abbrev pub same_some : Option ℕ → Option ℕ → Bool
same_some none b = false
same_some (some a) b = some_is b a

abbrev pub same_text : Option Text → Option Text → Bool
same_text (some a) (some b) = text_eq a b
same_text _ _ = false

-- The unique indexes of `payments`: `payment_id`, and where they are not null the reference of the
-- provider and `job_id`.
abbrev pub clashes : Payment → Payment → Bool
clashes p q =
    not (q.id == p.id)
    && (same_text p.provider_payment_reference q.provider_payment_reference
        || (q.payment_id == p.payment_id || same_some p.job_id q.job_id))

abbrev pub insert_payment : Payment → Action (Unit {0})
insert_payment p = do
  throw_if (← gets (λ db. any (clashes p) db.payments)) Error.database
  modify (λ db. record db { payments = db.payments ++ p ∷ [] })

abbrev pub update_payment : Payment → Action (Unit {0})
update_payment p = do
  throw_if (← gets (λ db. any (clashes p) db.payments)) Error.database
  modify (λ db. record db { payments = update_first (λ q. q.id == p.id) (λ _. p) db.payments })
