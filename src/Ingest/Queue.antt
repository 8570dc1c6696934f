-- ===== src/Ingest/Queue.antt =====
-- The promotions keep the rule of one open appointment per plate.
use ivis_backend.Base.{
  ℕ, suc, ltb, true, Option, none, some, List, [], ◌∷◌, ◌++◌, any, keep, Memᴰ-keep, Memᴰ-sort_by,
  tally, All, All-append_one, tally-append, trim, Text, text_eq, text_eq→eq, to_upper, ◌≡◌, ◌≢◌,
  refl, sym, ap, ◌∙◌, subst, arith, Bool-cases, inl, inr,
}
use mathlib.Core.List.{Memᴰ}
use ivis_backend.Store.Entities.{VehicleRecord, Appointment, AppointmentBooking, Db}
use ivis_backend.Store.Action.{Action, ok, ◌>>=◌, ◌>>◌, modify}
use ivis_backend.Store.Dao.{find_by_plate_number}
use ivis_backend.Store.Runs.{bind_ok, bind_err}
use ivis_backend.Payments.Create.{drawn}
use ivis_backend.Submission.Filing.{Centre}
use ivis_backend.Ingest.Dao.{
  is_open_for, plate_of_record, find_open_by_plate, insert_appointment, clashes_with, save_booking,
  next_appointment_id, find_by_provider_booking_id, find_pending_promotion, awaits_promotion,
  is_earlier_slot,
}
use ivis_backend.Ingest.Bookings.{Formats}
use ivis_backend.Ingest.Parties.{
  nonempty, nonblank, vehicle_record_for, ensure_vehicle_record, ensure_customer, ensure_payment,
}
use ivis_backend.Ingest.Promote.{
  new_appointment, linked_to, insert_for, promote_new, promote_by, open_for_plate, promote,
  promote_all, promote_pending,
}
use ivis_backend.Ingest.Frames.{
  ensure_customer-Returns, ensure_payment-Rests, with_appointment, insert_appointment_ok,
  insert_appointment_err,
}
use ivis_backend.Ingest.OpenPlates.{find_last-none, tally-upper, is_open_for-other, is_old_link}
use ivis_backend.Ingest.OneOpen.{
  OneOpenRows, HasOneOpen, OneOpenRows-later, Rests-HasOneOpen, vehicle_id_for-Vehicle,
}

-- A row for a plate that has no open one.
with_row-OneOpenRows :
    {now next : ℕ} {records : List VehicleRecord} {rows : List Appointment} (a : Appointment)
    (plate : Text)
    → OneOpenRows now next records rows
    → a.plate_number ≡ some plate
    → plate_of_record a.vehicle_record_id records ≡ some plate
    → is_old_link a.vehicle_record_id next ≡ true
    → tally (is_open_for now plate records) rows ≡ 0
    → OneOpenRows now next records (rows ++ a ∷ [])
with_row-OneOpenRows {now} {next} {records} {rows} a plate s row record_plate old free = record {
  one_open = λ p.
      let split = tally-append (is_open_for now p records) rows (a ∷ []) in
      elim (Bool-cases (text_eq (to_upper plate) (to_upper p))) [
        | inl same ↦
            let none_open =
              tally-upper now p plate records (sym (text_eq→eq (to_upper plate) (to_upper p) same))
                rows in
            ground (arith, split, none_open, free)
        | inr other ↦ ground (
          arith,
          split,
          is_open_for-other now p plate records a row record_plate other,
          s.one_open p,
        )
      ];
  old_links =
      All-append_one (λ q. is_old_link q.vehicle_record_id next ≡ true) rows a s.old_links old;
  old_records = s.old_records;
  distinct = s.distinct;
}

pub nonempty_again : (s : Text) {t : Text} → nonempty s ≡ some t → nonempty t ≡ some t
nonempty_again [] e = absurd cc
nonempty_again (c ∷ s) {t} e =
    let same : c ∷ s ≡ t = cc in subst (λ u. nonempty u ≡ some u) same refl

nonempty_tidy : (s : Text) → s ≢ [] → nonempty s ≡ some s
nonempty_tidy [] full = absurd (full refl)
nonempty_tidy (c ∷ s) full = refl

All-Memᴰ : {A : Type 0} (P : A → Type 0) (xs : List A) {x : A} → All P xs → Memᴰ x xs → P x
All-Memᴰ P [] h m = elim m [ ]
All-Memᴰ P (y ∷ ys) h (Memᴰ.head same) = subst P (sym same) h.0
All-Memᴰ P (y ∷ ys) h (Memᴰ.tail m) = All-Memᴰ P ys h.1 m

-- The plate of a booking is not empty and has no spaces at its ends.
abbrev pub IsTidy : AppointmentBooking → Type 0
IsTidy b = (trim b.plate_number ≡ b.plate_number) × (b.plate_number ≢ [])

pub IsTidy-nonempty :
    (b : AppointmentBooking) → IsTidy b → nonblank (some b.plate_number) ≡ some b.plate_number
IsTidy-nonempty b tidy = ap nonempty tidy.0 ∙ nonempty_tidy b.plate_number tidy.1

module _ (f : Formats) (now : ℕ) (centre : Centre) (booking : AppointmentBooking) where
  -- The appointment is inserted, or the database refuses it.
  insert_for-HasOneOpen :
      (vehicle : ℕ) (customer : Option ℕ) (db : Db)
      → HasOneOpen now db
      → plate_of_record (some vehicle) db.vehicle_records ≡ some booking.plate_number
      → ltb vehicle db.next_id ≡ true
      → tally (is_open_for now booking.plate_number db.vehicle_records) db.appointments ≡ 0
      → HasOneOpen now (insert_for f now centre booking (some vehicle) customer db).1
  insert_for-HasOneOpen vehicle customer db s carries old free =
      let a =
        new_appointment f now centre booking (some vehicle) customer db.next_id
          (next_appointment_id (drawn db)) in
      let rest : Unit {0} → Action (Unit {0}) = λ _.
        modify (save_booking (linked_to booking db.next_id))
        >> ensure_payment f now booking a customer (some vehicle) in
      let later : HasOneOpen now (drawn db) =
        OneOpenRows-later {m = db.next_id} {n = suc db.next_id} (omega arith) s in
      elim (Bool-cases (any (clashes_with a) db.appointments)) [
        | inl taken ↦
            subst (λ r. HasOneOpen now r.1)
              (sym
                (bind_err (insert_appointment a) rest (insert_appointment_err a (drawn db) taken)))
              later
        | inr new ↦
            let added : HasOneOpen now (with_appointment a (drawn db)) =
              with_row-OneOpenRows a booking.plate_number later refl carries (ground arith) free in
            subst (λ r. HasOneOpen now r.1)
              (sym (bind_ok (insert_appointment a) rest (insert_appointment_ok a (drawn db) new)))
              (Rests-HasOneOpen
                (ensure_payment-Rests f now booking a customer (some vehicle)
                  (save_booking (linked_to booking db.next_id) (with_appointment a (drawn db))))
                added)
      ]

  -- Where the steps before the insertion lead.
  pub record Reached (db : Db) : Type 0 where
    pub vehicle : ℕ
    pub customer : Option ℕ
    pub before : Db
    pub whole :
        promote_new f now centre booking db
        ≡ insert_for f now centre booking (some vehicle) customer before
    pub sound : HasOneOpen now before
    pub carries : plate_of_record (some vehicle) before.vehicle_records ≡ some booking.plate_number
    pub is_old : ltb vehicle before.next_id ≡ true
    pub same_rows : before.appointments ≡ db.appointments
    pub same_bookings : before.bookings ≡ db.bookings
    pub same_opens :
        tally (is_open_for now booking.plate_number before.vehicle_records) before.appointments
        ≡ tally (is_open_for now booking.plate_number db.vehicle_records) db.appointments

  pub promote_new-Reached :
      (db : Db)
      → nonblank (some booking.plate_number) ≡ some booking.plate_number
      → HasOneOpen now db
      → Reached db
  unfolding promote_new ensure_vehicle_record
  promote_new-Reached db trimmed s =
      let plate = booking.plate_number in
      let v =
        vehicle_id_for-Vehicle now booking.payload plate db (find_by_plate_number plate db) s
          refl in
      let (customer, db2, ran, rests) =
        ensure_customer-Returns booking.payload (some v.id) v.after in
      let vehicle_found : ensure_vehicle_record booking db ≡ (ok (some v.id), v.after) =
        ap (λ o. vehicle_record_for booking.payload o db) trimmed ∙ v.runs in
      let next : Option ℕ → Action (Unit {0}) =
        λ o. ensure_customer booking.payload o >>= insert_for f now centre booking o in
      record {
        vehicle = v.id;
        customer = customer;
        before = db2;
        whole =
            bind_ok (ensure_vehicle_record booking) next vehicle_found
            ∙ bind_ok (ensure_customer booking.payload (some v.id))
                (insert_for f now centre booking (some v.id)) ran;
        sound = Rests-HasOneOpen rests v.sound;
        carries =
            ap (λ records. plate_of_record (some v.id) records) rests.vehicle_records ∙ v.carries;
        is_old = let grows = rests.grows in let old = v.is_old in ground arith;
        same_rows = rests.appointments ∙ v.same_rows;
        same_bookings = rests.bookings ∙ v.same_bookings;
        same_opens =
            ap (λ rows. tally (is_open_for now plate db2.vehicle_records) rows)
              (rests.appointments ∙ v.same_rows)
            ∙ ap (λ records. tally (is_open_for now plate records) db.appointments)
                rests.vehicle_records
            ∙ v.same_opens;
      }

  promote_new-HasOneOpen :
      (db : Db)
      → nonblank (some booking.plate_number) ≡ some booking.plate_number
      → HasOneOpen now db
      → find_open_by_plate now booking.plate_number db ≡ none
      → HasOneOpen now (promote_new f now centre booking db).1
  promote_new-HasOneOpen db trimmed s free =
      let r = promote_new-Reached db trimmed s in
      subst (λ q. HasOneOpen now q.1) (sym r.whole)
        (insert_for-HasOneOpen r.vehicle r.customer r.before r.sound r.carries r.is_old (
          r.same_opens
          ∙ find_last-none (is_open_for now booking.plate_number db.vehicle_records) db.appointments
              free))

  -- The cases of `promote`, by what the two queries found.
  promote-HasOneOpen :
      (db : Db)
      → nonblank (some booking.plate_number) ≡ some booking.plate_number
      → HasOneOpen now db
      → HasOneOpen now (promote f now centre booking db).1
  unfolding promote
  promote-HasOneOpen db trimmed s =
      go (find_by_provider_booking_id booking.booking_id db)
        (open_for_plate now (nonempty booking.plate_number) db) refl
    where
      go :
          (known open_one : Option Appointment)
          → open_for_plate now (nonempty booking.plate_number) db ≡ open_one
          → HasOneOpen now (promote_by f now centre booking known open_one db).1
      go (some a) open_one e = s
      go none (some a) e = s
      go none none e = promote_new-HasOneOpen db trimmed s (
          ap (λ o. open_for_plate now o db)
            (sym (nonempty_again (trim booking.plate_number) trimmed))
          ∙ e)

module _ (f : Formats) (now : ℕ) (centre : Centre) where
  promote_all-HasOneOpen :
      (pending : List AppointmentBooking) (db : Db)
      → ((b : AppointmentBooking) → Memᴰ b pending → IsTidy b)
      → HasOneOpen now db
      → HasOneOpen now (promote_all f now centre pending db)
  unfolding promote_all
  promote_all-HasOneOpen [] db tidy s = s
  promote_all-HasOneOpen (b ∷ pending) db tidy s =
      promote_all-HasOneOpen pending (promote f now centre b db).1 (λ q m. tidy q (Memᴰ.tail m))
        (promote-HasOneOpen f now centre b db (IsTidy-nonempty b (tidy b (Memᴰ.head refl))) s)

  -- If no plate has two open appointments, ids are drawn upwards and those of vehicle records are
  -- distinct, and the plates of the bookings are not empty and have no spaces at their ends, then after
  -- all pending bookings of a centre were promoted, whether or not some promotions failed, still no
  -- plate has two open appointments, whatever its letter case.
  pub promote_pending-HasOneOpen :
      (db : Db)
      → All IsTidy db.bookings
      → HasOneOpen now db
      → HasOneOpen now (promote_pending f now centre db)
  unfolding promote_pending find_pending_promotion
  promote_pending-HasOneOpen db tidy s =
      promote_all-HasOneOpen (find_pending_promotion centre.id db) db
        (λ b m.
          All-Memᴰ IsTidy db.bookings tidy
            (Memᴰ-keep (awaits_promotion centre.id) db.bookings
              (Memᴰ-sort_by is_earlier_slot (keep (awaits_promotion centre.id) db.bookings) m)).0)
        s
