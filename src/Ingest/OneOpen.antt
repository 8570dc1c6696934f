-- ===== src/Ingest/OneOpen.antt =====
-- At most one open appointment per plate.
use ivis_backend.Base.{
  ℕ, suc, ◌==◌, ltb, ◌≤◌, true, ◌&&◌, not, Option, none, some, List, [], ◌∷◌, ◌++◌, find, tally,
  All, All-append_one, All-find, tally-append, find_passes, find_unique, Memᴰ-find, Text, text_eq,
  text_eq→eq, ◌≡◌, refl, sym, ap, ◌∙◌, subst, arith, Bool-cases, inl, inr,
}
use ivis_backend.Store.Entities.{VehicleRecord, Appointment, ProviderBooking, Db}
use ivis_backend.Store.Action.{Action, ok, pure, ◌>>=◌}
use ivis_backend.Store.Dao.{find_by_plate_number, next_vehicle_record_id}
use ivis_backend.Payments.Create.{drawn}
use ivis_backend.Ingest.Dao.{is_open_for, plate_of_record}
use ivis_backend.Ingest.Parties.{vehicle_id_for, vehicle_of, create_vehicle_record}
use ivis_backend.Ingest.Frames.{Rests}
use ivis_backend.Ingest.OpenPlates.{is_old_link, OldLinks, tally-new_record}

-- No plate has two open appointments; ids are drawn upwards; and the ids of vehicle records are distinct.
pub record OneOpenRows (now next : ℕ) (records : List VehicleRecord) (rows : List Appointment)
    : Type 0 where
  pub one_open : (plate : Text) → tally (is_open_for now plate records) rows ≤ 1
  pub old_links : OldLinks next rows
  pub old_records : All (λ (v : VehicleRecord). ltb v.id next ≡ true) records
  pub distinct : (id : ℕ) → tally (λ (v : VehicleRecord). v.id == id) records ≤ 1

abbrev pub HasOneOpen : ℕ → Db → Type 0
HasOneOpen now db = OneOpenRows now db.next_id db.vehicle_records db.appointments

is_old_link_later :
    (link : Option ℕ) (m n : ℕ) → m ≤ n → is_old_link link m ≡ true → is_old_link link n ≡ true
is_old_link_later none m n h old = refl
is_old_link_later (some id) m n h old = ground arith

OldLinks-later : (m n : ℕ) → m ≤ n → (rows : List Appointment) → OldLinks m rows → OldLinks n rows
OldLinks-later m n h [] old = tt
OldLinks-later m n h (a ∷ rows) old =
    (is_old_link_later a.vehicle_record_id m n h old.0, OldLinks-later m n h rows old.1)

old_records_later :
    (m n : ℕ)
    → m ≤ n
    → (records : List VehicleRecord) → All (λ (v : VehicleRecord). ltb v.id m ≡ true) records
    → All (λ (v : VehicleRecord). ltb v.id n ≡ true) records
old_records_later m n h [] old = tt
old_records_later m n h (v ∷ records) old = (ground arith, old_records_later m n h records old.1)

pub OneOpenRows-later :
    {now m n : ℕ} {records : List VehicleRecord} {rows : List Appointment}
    → m ≤ n
    → OneOpenRows now m records rows
    → OneOpenRows now n records rows
OneOpenRows-later {now} {m} {n} {records} {rows} h s = record {
  one_open = s.one_open;
  old_links = OldLinks-later m n h rows s.old_links;
  old_records = old_records_later m n h records s.old_records;
  distinct = s.distinct;
}

pub Rests-HasOneOpen :
    {now : ℕ} {db db' : Db} → Rests db db' → HasOneOpen now db → HasOneOpen now db'
Rests-HasOneOpen {now} {db} {db'} r s = OneOpenRows-later r.grows (
    subst (λ rows. OneOpenRows now db.next_id db'.vehicle_records rows) (sym r.appointments)
      (subst (λ records. OneOpenRows now db.next_id records db.appointments) (sym r.vehicle_records)
        s))

none_new :
    (n id : ℕ) (records : List VehicleRecord)
    → (n == id) ≡ true
    → All (λ (v : VehicleRecord). ltb v.id n ≡ true) records
    → tally (λ (v : VehicleRecord). v.id == id) records ≡ 0
none_new n id [] here old = refl
none_new n id (v ∷ records) here old = ground (arith, none_new n id records here old.1)

distinct_new :
    (v : VehicleRecord) (records : List VehicleRecord) (id : ℕ)
    → All (λ (w : VehicleRecord). ltb w.id v.id ≡ true) records
    → tally (λ (w : VehicleRecord). w.id == id) records ≤ 1
    → tally (λ (w : VehicleRecord). w.id == id) (records ++ v ∷ []) ≤ 1
distinct_new v records id old one =
    let split = tally-append (λ (w : VehicleRecord). w.id == id) records (v ∷ []) in
    elim (Bool-cases (v.id == id)) [
      | inl here ↦ ground (arith, none_new v.id id records here old, split)
      | inr other ↦ ground (arith, split)
    ]

-- A new vehicle record under the next id.
new_record-OneOpenRows :
    (now : ℕ) (v : VehicleRecord) (records : List VehicleRecord) (rows : List Appointment)
    → OneOpenRows now v.id records rows
    → OneOpenRows now (suc v.id) (records ++ v ∷ []) rows
new_record-OneOpenRows now v records rows s =
    let later = OneOpenRows-later {m = v.id} {n = suc v.id} (omega arith) s in
    record {
      one_open =
          λ plate. rw (tally-new_record now plate v records rows s.old_links) (s.one_open plate);
      old_links = later.old_links;
      old_records =
          All-append_one (λ (w : VehicleRecord). ltb w.id (suc v.id) ≡ true) records v
            later.old_records (ground arith);
      distinct = λ id. distinct_new v records id s.old_records (s.distinct id);
    }

-- The record that is found or made for a plate carries the plate.
pub record Vehicle (now : ℕ) (plate : Text) (db : Db) (m : Action (Option ℕ)) : Type 0 where
  pub id : ℕ
  pub after : Db
  pub runs : m db ≡ (ok (some id), after)
  pub sound : HasOneOpen now after
  pub carries : plate_of_record (some id) after.vehicle_records ≡ some plate
  pub is_old : ltb id after.next_id ≡ true
  pub same_rows : after.appointments ≡ db.appointments
  pub same_bookings : after.bookings ≡ db.bookings
  pub same_opens :
      tally (is_open_for now plate after.vehicle_records) db.appointments
      ≡ tally (is_open_for now plate db.vehicle_records) db.appointments

known_carries :
    (plate : Text) (v : VehicleRecord) (records : List VehicleRecord)
    → ((id : ℕ) → tally (λ (w : VehicleRecord). w.id == id) records ≤ 1)
    → find (λ w. text_eq w.plate_number plate && not w.is_deleted) records ≡ some v
    → plate_of_record (some v.id) records ≡ some plate
known_carries plate v records distinct e =
    let there =
      find_unique (λ (w : VehicleRecord). w.id == v.id) records
        (Memᴰ-find (λ w. text_eq w.plate_number plate && not w.is_deleted) records e) (ground arith)
        (distinct v.id) in
    let passes = find_passes (λ w. text_eq w.plate_number plate && not w.is_deleted) records e in
    ap (λ o. elim o [ none ↦ none | some r ↦ some r.plate_number ]) there
    ∙ ap some (text_eq→eq v.plate_number plate (ground arith))

new_carries :
    (v : VehicleRecord) (records : List VehicleRecord)
    → All (λ (w : VehicleRecord). ltb w.id v.id ≡ true) records
    → plate_of_record (some v.id) (records ++ v ∷ []) ≡ some v.plate_number
new_carries v records old =
    ap (λ o. elim o [ none ↦ none | some r ↦ some r.plate_number ]) (go records old)
  where
    go :
        (ws : List VehicleRecord)
        → All (λ (w : VehicleRecord). ltb w.id v.id ≡ true) ws
        → find (λ w. w.id == v.id) (ws ++ v ∷ []) ≡ some v
    go [] h = ground arith
    go (w ∷ ws) h = ground (arith, go ws h.1)

pub vehicle_id_for-Vehicle :
    (now : ℕ) (payload : ProviderBooking) (plate : Text) (db : Db) (known : Option VehicleRecord)
    → HasOneOpen now db
    → find_by_plate_number plate db ≡ known
    → Vehicle now plate db (vehicle_id_for payload plate known >>= λ id. pure (some id))
vehicle_id_for-Vehicle now payload plate db (some v) s e = record {
  id = v.id;
  after = db;
  runs = refl;
  sound = s;
  carries = known_carries plate v db.vehicle_records s.distinct e;
  is_old =
      All-find (λ (w : VehicleRecord). ltb w.id db.next_id ≡ true)
        (λ w. text_eq w.plate_number plate && not w.is_deleted) db.vehicle_records s.old_records e;
  same_rows = refl;
  same_bookings = refl;
  same_opens = refl;
}
vehicle_id_for-Vehicle now payload plate db none s e =
    let v = vehicle_of payload plate db.next_id (next_vehicle_record_id (drawn db)) in
    record {
      id = db.next_id;
      after = (create_vehicle_record payload plate db).1;
      runs = refl;
      sound = new_record-OneOpenRows now v db.vehicle_records db.appointments s;
      carries = new_carries v db.vehicle_records s.old_records;
      is_old = ground arith;
      same_rows = refl;
      same_bookings = refl;
      same_opens = tally-new_record now plate v db.vehicle_records db.appointments s.old_links;
    }
