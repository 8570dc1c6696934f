-- ===== src/Ingest/Promoted.antt =====
-- What a promotion makes of a booking, and when it never succeeds.
use ivis_backend.Base.{
  ℕ, ◌+◌, ◌==◌, ◌≤◌, Bool, true, false, ◌&&◌, not, Option, none, some, List, [], ◌∷◌, ◌++◌, any,
  find, find_passes, find-update_first, trim, Text, text_eq_refl, text_eq_sym, ◌≡◌, refl, sym, ap,
  ◌∙◌, subst, arith,
}
use ivis_backend.Store.Entities.{AppointmentStatus, Appointment, AppointmentBooking, Db}
use ivis_backend.Store.Action.{Action, ◌>>◌, modify}
use ivis_backend.Store.Dao.{max_of, same_text}
use ivis_backend.Store.Runs.{bind_ok}
use ivis_backend.Payments.Create.{drawn}
use ivis_backend.Submission.Filing.{Centre}
use ivis_backend.Ingest.Dao.{
  plate_of_record, find_open_by_plate, insert_appointment, clashes_with, save_booking,
  next_appointment_id, find_by_provider_booking_id, is_some_text,
}
use ivis_backend.Ingest.Bookings.{Formats, to_instant}
use ivis_backend.Ingest.Parties.{nonempty, ensure_payment}
use ivis_backend.Ingest.Promote.{
  new_appointment, linked_to, insert_for, promote_new, promote_by, open_for_plate, promote,
}
use ivis_backend.Ingest.Frames.{ensure_payment-Rests, with_appointment, insert_appointment_ok}
use ivis_backend.Ingest.OneOpen.{HasOneOpen}
use ivis_backend.Ingest.Queue.{IsTidy, IsTidy-nonempty, nonempty_again, promote_new-Reached}

-- Some row, deleted or not, has the provider's id.
abbrev pub has_booking_id : Text → Appointment → Bool
has_booking_id id a = same_text (some id) a.provider_booking_id

le-max_of :
    (rows : List Appointment)
    → (n : ℕ) → max_of (λ (a : Appointment). a.appointment_id) rows ≤ n
    → any (λ (a : Appointment). (n + 1) == a.appointment_id) rows ≡ false
le-max_of [] n h = refl
le-max_of (a ∷ rows) n h = ground (arith, le-max_of rows n)

free_of_clashes :
    (a : Appointment) (id : Text) (rows : List Appointment)
    → a.provider_booking_id ≡ some id
    → any (λ (b : Appointment). a.appointment_id == b.appointment_id) rows ≡ false
    → any (has_booking_id id) rows ≡ false
    → any (clashes_with a) rows ≡ false
free_of_clashes a id [] e numbers ids = refl
free_of_clashes a id (b ∷ rows) e numbers ids =
    let same = ap (λ o. same_text o b.provider_booking_id) e in
    ground (arith, same, free_of_clashes a id rows e)

pub clashes_anyway :
    (a : Appointment) (id : Text) (rows : List Appointment)
    → a.provider_booking_id ≡ some id
    → any (has_booking_id id) rows ≡ true
    → any (clashes_with a) rows ≡ true
clashes_anyway a id [] e ids = absurd cc
clashes_anyway a id (b ∷ rows) e ids =
    let same = ap (λ o. same_text o b.provider_booking_id) e in
    ground (arith, same, clashes_anyway a id rows e)

is_some_text-same : (o : Option Text) (id : Text) → is_some_text o id ≡ same_text (some id) o
is_some_text-same none id = refl
is_some_text-same (some s) id = text_eq_sym s id

find-row_added :
    (id : Text) (a : Appointment) (rows : List Appointment)
    → any (has_booking_id id) rows ≡ false
    → (is_some_text a.provider_booking_id id && not a.is_deleted) ≡ true
    → find (λ q. is_some_text q.provider_booking_id id && not q.is_deleted) (rows ++ a ∷ [])
      ≡ some a
find-row_added id a [] none_there h = ground arith
find-row_added id a (b ∷ rows) none_there h =
    let same = is_some_text-same b.provider_booking_id id in
    ground (arith, same, find-row_added id a rows)

-- A booking turned into an appointment that waits for its vehicle.
pub record Promoted (f : Formats) (booking : AppointmentBooking) (db db' : Db) : Type 0 where
  pub row : Appointment
  pub added : db'.appointments ≡ db.appointments ++ row ∷ []
  pub of_booking : row.provider_booking_id ≡ some booking.booking_id
  pub of_plate : row.plate_number ≡ some booking.plate_number
  pub of_vehicle :
      plate_of_record row.vehicle_record_id db'.vehicle_records ≡ some booking.plate_number
  pub waits : row.status ≡ AppointmentStatus.queued
  pub at_slot : row.appointment_at ≡ some (to_instant f booking.booking_date booking.booking_time)
  pub absent : row.anpr_capture ≡ none
  pub is_linked : find (λ b. b.id == booking.id) db'.bookings ≡ some (linked_to booking row.id)
  pub is_found : find_by_provider_booking_id booking.booking_id db' ≡ some row

module _ (f : Formats) (now : ℕ) (centre : Centre) (booking : AppointmentBooking) where
  insert_for-Promoted :
      (vehicle : ℕ) (customer : Option ℕ) (db : Db)
      → any (has_booking_id booking.booking_id) db.appointments ≡ false
      → find (λ b. b.id == booking.id) db.bookings ≡ some booking
      → plate_of_record (some vehicle) db.vehicle_records ≡ some booking.plate_number
      → Promoted f booking db (insert_for f now centre booking (some vehicle) customer db).1
  insert_for-Promoted vehicle customer db new own carries =
      let a =
        new_appointment f now centre booking (some vehicle) customer db.next_id
          (next_appointment_id (drawn db)) in
      let rest : Unit {0} → Action (Unit {0}) = λ _.
        modify (save_booking (linked_to booking db.next_id))
        >> ensure_payment f now booking a customer (some vehicle) in
      let free =
        free_of_clashes a booking.booking_id db.appointments refl
          (le-max_of db.appointments
            (max_of (λ (q : Appointment). q.appointment_id) db.appointments) (omega arith))
          new in
      let saved = save_booking (linked_to booking db.next_id) (with_appointment a (drawn db)) in
      let rests = ensure_payment-Rests f now booking a customer (some vehicle) saved in
      subst (λ r. Promoted f booking db r.1)
        (sym (bind_ok (insert_appointment a) rest (insert_appointment_ok a (drawn db) free)))
        record {
          row = a;
          added = rests.appointments;
          of_booking = refl;
          of_plate = refl;
          of_vehicle =
              ap (λ records. plate_of_record (some vehicle) records) rests.vehicle_records
              ∙ carries;
          waits = refl;
          at_slot = refl;
          absent = refl;
          is_linked =
              ap (find (λ b. b.id == booking.id)) rests.bookings
              ∙ find-update_first (λ b. b.id == booking.id) (λ _. linked_to booking db.next_id)
                  db.bookings own
                  (find_passes (λ (b : AppointmentBooking). b.id == booking.id) db.bookings own);
          is_found =
              ap
                (find
                  (λ q. is_some_text q.provider_booking_id booking.booking_id && not q.is_deleted))
                rests.appointments
              ∙ find-row_added booking.booking_id a db.appointments new
                  (ap (λ b. b && true) (text_eq_refl booking.booking_id));
        }

  pub promote-new :
      (db : Db)
      → find_by_provider_booking_id booking.booking_id db ≡ none
      → open_for_plate now (nonempty booking.plate_number) db ≡ none
      → promote f now centre booking db ≡ promote_new f now centre booking db
  unfolding promote
  promote-new db unknown free =
      ap
        (λ o.
          promote_by f now centre booking o (open_for_plate now (nonempty booking.plate_number) db)
            db)
        unknown
      ∙ ap (λ o. promote_by f now centre booking none o db) free

  not_found :
      (rows : List Appointment)
      → any (has_booking_id booking.booking_id) rows ≡ false
      → find (λ q. is_some_text q.provider_booking_id booking.booking_id && not q.is_deleted) rows
        ≡ none
  not_found [] h = refl
  not_found (a ∷ rows) h =
      ground (arith, is_some_text-same a.provider_booking_id booking.booking_id, not_found rows)

  -- If no appointment, deleted or not, has the id of the booking, its plate is not empty, has no spaces at
  -- its ends and no open appointment, no plate has two open ones, and the booking is the row under its
  -- id, then its promotion, whether the recording of the payment succeeds or not, adds one appointment:
  -- it carries the id and the plate of the booking, itself and through its vehicle record, is queued for
  -- the booked slot and has no vehicle yet; the booking is linked to it; and a query for the booking's
  -- id finds it, so that another promotion adds none.
  pub promote-Promoted :
      (db : Db)
      → IsTidy booking
      → HasOneOpen now db
      → any (has_booking_id booking.booking_id) db.appointments ≡ false
      → find_open_by_plate now booking.plate_number db ≡ none
      → find (λ b. b.id == booking.id) db.bookings ≡ some booking
      → Promoted f booking db (promote f now centre booking db).1
  promote-Promoted db tidy s new free own =
      let trimmed = IsTidy-nonempty booking tidy in
      let r = promote_new-Reached f now centre booking db trimmed s in
      let whole : promote f now centre booking db
          ≡ insert_for f now centre booking (some r.vehicle) r.customer r.before =
        promote-new db (not_found db.appointments new) (
          ap (λ o. open_for_plate now o db) (nonempty_again (trim booking.plate_number) trimmed)
          ∙ free)
        ∙ r.whole in
      let p =
        insert_for-Promoted r.vehicle r.customer r.before
          (ap (any (has_booking_id booking.booking_id)) r.same_rows ∙ new)
          (ap (find (λ b. b.id == booking.id)) r.same_bookings ∙ own) r.carries in
      subst (λ q. Promoted f booking db q.1) (sym whole)
        record {
          row = p.row;
          added = p.added ∙ ap (λ rows. rows ++ p.row ∷ []) r.same_rows;
          of_booking = p.of_booking;
          of_plate = p.of_plate;
          of_vehicle = p.of_vehicle;
          waits = p.waits;
          at_slot = p.at_slot;
          absent = p.absent;
          is_linked = p.is_linked;
          is_found = p.is_found;
        }
