-- ===== src/Ingest/Blocked.antt =====
-- A booking whose appointment was deleted here.
use ivis_backend.Base.{
  ℕ, true, Option, none, some, any, ◌≡◌, refl, sym, ap, ◌∙◌, subst, Option-cases, inl, inr,
}
use ivis_backend.Store.Entities.{AppointmentBooking, Db}
use ivis_backend.Store.Action.{Action, ◌>>◌, modify}
use ivis_backend.Store.Runs.{bind_err}
use ivis_backend.Payments.Create.{drawn}
use ivis_backend.Submission.Filing.{Centre}
use ivis_backend.Ingest.Dao.{
  insert_appointment, save_booking, next_appointment_id, find_by_provider_booking_id,
}
use ivis_backend.Ingest.Bookings.{Formats}
use ivis_backend.Ingest.Parties.{nonempty, ensure_payment}
use ivis_backend.Ingest.Promote.{
  new_appointment, linked_to, insert_for, promote_by, open_for_plate, promote,
}
use ivis_backend.Ingest.Frames.{insert_appointment_err}
use ivis_backend.Ingest.OneOpen.{HasOneOpen}
use ivis_backend.Ingest.Queue.{IsTidy, IsTidy-nonempty, promote_new-Reached}
use ivis_backend.Ingest.Promoted.{has_booking_id, clashes_anyway, promote-new}

-- Appointments and bookings are as they were.
abbrev pub SameQueue : Db → Db → Type 0
SameQueue db db' = (db'.appointments ≡ db.appointments) × (db'.bookings ≡ db.bookings)

module _ (f : Formats) (now : ℕ) (centre : Centre) (booking : AppointmentBooking) where
  insert_for-refused :
      (vehicle customer : Option ℕ) (db : Db)
      → any (has_booking_id booking.booking_id) db.appointments ≡ true
      → SameQueue db (insert_for f now centre booking vehicle customer db).1
  insert_for-refused vehicle customer db taken =
      let a =
        new_appointment f now centre booking vehicle customer db.next_id
          (next_appointment_id (drawn db)) in
      let rest : Unit {0} → Action (Unit {0}) = λ _.
        modify (save_booking (linked_to booking db.next_id))
        >> ensure_payment f now booking a customer vehicle in
      let clash = clashes_anyway a booking.booking_id db.appointments refl taken in
      subst (λ r. SameQueue db r.1)
        (sym (bind_err (insert_appointment a) rest (insert_appointment_err a (drawn db) clash)))
        (refl, refl)

  -- If the only appointments with the id of a booking are deleted ones, its plate is not empty and has no
  -- spaces at its ends, no plate has two open appointments, ids are drawn upwards and those of vehicle
  -- records are distinct, then promoting the booking leaves the appointments and the bookings as they are.
  pub promote-blocked :
      (db : Db)
      → IsTidy booking
      → HasOneOpen now db
      → any (has_booking_id booking.booking_id) db.appointments ≡ true
      → find_by_provider_booking_id booking.booking_id db ≡ none
      → SameQueue db (promote f now centre booking db).1
  unfolding promote
  promote-blocked db tidy s taken unknown =
      elim (Option-cases (open_for_plate now (nonempty booking.plate_number) db)) [
        | inl free ↦
            let r = promote_new-Reached f now centre booking db (IsTidy-nonempty booking tidy) s in
            let refused =
              insert_for-refused (some r.vehicle) r.customer r.before
                (ap (any (has_booking_id booking.booking_id)) r.same_rows ∙ taken) in
            subst (λ q. SameQueue db q.1)
              (sym (promote-new f now centre booking db unknown free ∙ r.whole))
              (refused.0 ∙ r.same_rows, refused.1 ∙ r.same_bookings)
        | inr (a, found) ↦
            subst
              (λ o.
                SameQueue db
                  (promote_by f now centre booking o
                    (open_for_plate now (nonempty booking.plate_number) db) db).1)
              (sym unknown)
              (subst (λ o. SameQueue db (promote_by f now centre booking none o db).1) (sym found)
                (refl, refl))
      ]
