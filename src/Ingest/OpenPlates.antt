-- ===== src/Ingest/OpenPlates.antt =====
-- Which appointments are open for a plate.
use ivis_backend.Base.{
  ℕ, ◌==◌, ltb, Bool, true, false, ◌&&◌, ◌||◌, not, Option, none, some, List, [], ◌∷◌, ◌++◌, find,
  tally, All, Text, text_eq, to_upper, ◌≡◌, refl, ap, ◌∙◌, arith,
}
use ivis_backend.Store.Entities.{VehicleRecord, Appointment}
use ivis_backend.Ingest.Dao.{
  find_last, same_plate, plate_of_record, is_unfinished, is_current, is_open_for,
}

module _ {ℓ} {A : Type ℓ} where
  pub find_last-none : (p : A → Bool) (xs : List A) → find_last p xs ≡ none → tally p xs ≡ 0
  find_last-none p [] e = refl
  find_last-none p (x ∷ xs) e = ground (arith, find_last-none p xs)

same_plate-upper :
    (p q : Text) (o : Option Text) → to_upper p ≡ to_upper q → same_plate p o ≡ same_plate q o
same_plate-upper p q none e = refl
same_plate-upper p q (some s) e = ap (text_eq (to_upper s)) e

-- Letter case does not matter.
pub is_open_for-upper :
    (now : ℕ) (p q : Text) (records : List VehicleRecord) (a : Appointment)
    → to_upper p ≡ to_upper q
    → is_open_for now p records a ≡ is_open_for now q records a
unfolding is_open_for
is_open_for-upper now p q records a e =
    let of_row = same_plate-upper p q a.plate_number e in
    let of_record = same_plate-upper p q (plate_of_record a.vehicle_record_id records) e in
    ap
      (λ b.
        not a.is_deleted
        && (is_unfinished a.status
            && (is_current now a
                && (b || same_plate p (plate_of_record a.vehicle_record_id records)))))
      of_row
    ∙ ap
        (λ b.
          not a.is_deleted
          && (is_unfinished a.status && (is_current now a && (same_plate q a.plate_number || b))))
        of_record

pub tally-upper :
    (now : ℕ) (p q : Text) (records : List VehicleRecord)
    → to_upper p ≡ to_upper q
    → (rows : List Appointment)
    → tally (is_open_for now p records) rows ≡ tally (is_open_for now q records) rows
tally-upper now p q records e [] = refl
tally-upper now p q records e (a ∷ rows) =
    ground (arith, is_open_for-upper now p q records a e, tally-upper now p q records e rows)

-- A row that carries a plate twice is open for no other plate.
pub is_open_for-other :
    (now : ℕ) (p q : Text) (records : List VehicleRecord) (a : Appointment)
    → a.plate_number ≡ some q
    → plate_of_record a.vehicle_record_id records ≡ some q
    → text_eq (to_upper q) (to_upper p) ≡ false
    → is_open_for now p records a ≡ false
unfolding is_open_for
is_open_for-other now p q records a row record_plate other = ground arith

-- The link of a row that was written before the id `n` was drawn.
abbrev pub is_old_link : Option ℕ → ℕ → Bool
is_old_link none n = true
is_old_link (some id) n = ltb id n

find-append_new :
    (id : ℕ) (v : VehicleRecord) (records : List VehicleRecord)
    → (v.id == id) ≡ false
    → find (λ r. r.id == id) (records ++ v ∷ []) ≡ find (λ r. r.id == id) records
find-append_new id v [] other = ground arith
find-append_new id v (r ∷ records) other = ground (arith, find-append_new id v records other)

plate_of_record-append :
    (link : Option ℕ) (v : VehicleRecord) (records : List VehicleRecord)
    → is_old_link link v.id ≡ true
    → plate_of_record link (records ++ v ∷ []) ≡ plate_of_record link records
plate_of_record-append none v records old = refl
plate_of_record-append (some id) v records old =
    ap (λ o. elim o [ none ↦ none | some r ↦ some r.plate_number ])
      (find-append_new id v records (ground arith))

abbrev pub OldLinks : ℕ → List Appointment → Type 0
OldLinks n rows = All (λ a. is_old_link a.vehicle_record_id n ≡ true) rows

is_open_for-new_record :
    (now : ℕ) (p : Text) (v : VehicleRecord) (records : List VehicleRecord) (a : Appointment)
    → is_old_link a.vehicle_record_id v.id ≡ true
    → is_open_for now p (records ++ v ∷ []) a ≡ is_open_for now p records a
unfolding is_open_for
is_open_for-new_record now p v records a old =
    ap
      (λ o.
        not a.is_deleted
        && (is_unfinished a.status
            && (is_current now a && (same_plate p a.plate_number || same_plate p o))))
      (plate_of_record-append a.vehicle_record_id v records old)

-- A new vehicle record opens nothing.
pub tally-new_record :
    (now : ℕ) (p : Text) (v : VehicleRecord) (records : List VehicleRecord)
    (rows : List Appointment)
    → OldLinks v.id rows
    → tally (is_open_for now p (records ++ v ∷ [])) rows ≡ tally (is_open_for now p records) rows
tally-new_record now p v records [] old = refl
tally-new_record now p v records (a ∷ rows) old = ground (
  arith,
  is_open_for-new_record now p v records a old.0,
  tally-new_record now p v records rows old.1,
)
