-- ===== src/Arrival/Forgotten.antt =====
-- What becomes of the reason why an arrival was not converted.
use ivis_backend.Base.{
  ℕ, ◌==◌, Bool, true, false, Option, none, some, is_some, find, find_passes, update_first,
  find-update_first_both, Text, ◌≡◌, refl, sym, ap, ◌∙◌, subst, arith, if-cases, if_false,
}
use ivis_backend.Store.Entities.{Appointment, AppointmentBooking, Db}
use ivis_backend.Ingest.Bookings.{Formats, to_instant}
use ivis_backend.Ingest.Reconcile.{
  appointment_by_id, is_cancelled_visit, requeued, filled_text, unblocked, is_moved, moved,
  is_changed, restored_if, saved_if, follow, sync_found, sync_one,
}
use ivis_backend.Ingest.Visits.{follower-Follows}
use ivis_backend.Ingest.Followed.{appointment_by_own_id, restored_if-appointments}
use ivis_backend.Arrival.Unattended.{same_reason, note_blocked}

abbrev pub is_noted : Appointment → Bool
is_noted a = is_some (filled_text a.auto_convert_blocked_reason)

requeued-noted : (a : Appointment) → is_noted (requeued a) ≡ is_noted a
requeued-noted a =
    if-cases (λ (b : Appointment). is_noted b ≡ is_noted a) (is_cancelled_visit a.status)
      (λ _. refl) (λ _. refl)

unblocked_clear : (a : Appointment) → is_noted (unblocked a) ≡ false
unblocked_clear a =
    if-cases (λ (b : Appointment). is_noted b ≡ false) (is_noted a) (λ _. refl) (λ clear. clear)

moved-noted : (slot : ℕ) (a : Appointment) → is_noted (moved slot a) ≡ is_noted a
moved-noted slot a =
    if-cases (λ (b : Appointment). is_noted b ≡ is_noted a) (is_moved slot a) (λ _. refl)
      (λ _. refl)

-- The row is there without a note.
abbrev pub IsUnnoted : ℕ → Db → Type 0
IsUnnoted id db = (b : Appointment) × (appointment_by_id id db ≡ some b) × (is_noted b ≡ false)

module _ (f : Formats) (booking : AppointmentBooking) (id : ℕ)
    (promoted : booking.appointment_id ≡ some id) (stands : booking.is_withdrawn ≡ false) where
  saved_if-IsUnnoted :
      (a : Appointment) (db d : Db) (changed : Bool) (b : Appointment)
      → appointment_by_id id db ≡ some a
      → d.appointments ≡ db.appointments
      → b.id ≡ a.id
      → is_noted b ≡ false
      → (changed ≡ false → is_noted a ≡ false)
      → IsUnnoted id (saved_if changed b d)
  saved_if-IsUnnoted a db d false b found same ids clear old =
      (a, ap (find (λ q. q.id == id)) same ∙ found, old refl)
  saved_if-IsUnnoted a db d true b found same ids clear old =
      let hit = find_passes (λ (q : Appointment). q.id == id) db.appointments found in
      (
        b,
        ap (λ rows. find (λ q. q.id == id) (update_first (λ q. q.id == b.id) (λ _. b) rows)) same
            ∙ ap
                (λ k.
                  find (λ q. q.id == id) (update_first (λ q. q.id == k) (λ _. b) db.appointments))
                ids
            ∙ find-update_first_both (λ q. q.id == id) (λ q. q.id == a.id) (λ _. b) db.appointments
                (appointment_by_own_id id db.appointments found) found
                (ap (λ k. k == id) ids ∙ hit),
        clear,
      )

  sync_one-IsUnnoted :
      (a : Appointment) (db : Db)
      → appointment_by_id id db ≡ some a
      → a.is_deleted ≡ false
      → IsUnnoted id (sync_one f booking db)
  unfolding sync_one sync_found follow
  sync_one-IsUnnoted a db found live =
      let slot = to_instant f booking.booking_date booking.booking_time in
      let b = moved slot (unblocked (requeued a)) in
      let d = restored_if (is_cancelled_visit a.status) booking db in
      let step : sync_one f booking db ≡ saved_if (is_changed slot a) b d =
        ap
          (λ o. elim o as (λ _. Db) [
            | none ↦ db
            | some k ↦ sync_found f booking (appointment_by_id k db) db
          ])
          promoted
        ∙ ap (λ o. sync_found f booking o db) found
        ∙ if_false _ live
        ∙ if_false _ stands in
      subst (IsUnnoted id) (sym step) (
        saved_if-IsUnnoted a db d (is_changed slot a) b found
          (restored_if-appointments (is_cancelled_visit a.status) booking db)
          (ap (λ (q : Appointment). q.id) (follower-Follows slot a live).framed)
          (moved-noted slot (unblocked (requeued a)) ∙ unblocked_clear (requeued a))
          (λ same. ground arith))

  noted_row :
      (a : Appointment) (reason : Option Text) (db : Db)
      → appointment_by_id id db ≡ some a
      → a.is_deleted ≡ false
      → (b : Appointment) × (appointment_by_id id (note_blocked a reason db) ≡ some b)
        × (b.is_deleted ≡ false)
  unfolding note_blocked
  noted_row a reason db found live =
      if-cases (λ d. (b : Appointment) × (appointment_by_id id d ≡ some b) × (b.is_deleted ≡ false))
        (same_reason a.auto_convert_blocked_reason reason) (λ _. (a, found, live))
        (λ _. (
          record a { auto_convert_blocked_reason = reason },
          find-update_first_both (λ q. q.id == id) (λ q. q.id == a.id)
              (λ q. record q { auto_convert_blocked_reason = reason }) db.appointments
              (appointment_by_own_id id db.appointments found) found
              (find_passes (λ (q : Appointment). q.id == id) db.appointments found),
          live,
        ))

  -- If a booking is promoted and not withdrawn and its appointment is not deleted, then whatever reason
  -- an arrival notes on the appointment, the next pass over the booking leaves it without a note.
  pub sync_one-note_blocked :
      (a : Appointment) (reason : Option Text) (db : Db)
      → appointment_by_id id db ≡ some a
      → a.is_deleted ≡ false
      → IsUnnoted id (sync_one f booking (note_blocked a reason db))
  sync_one-note_blocked a reason db found live =
      let (b, there, alive) = noted_row a reason db found live in
      sync_one-IsUnnoted b (note_blocked a reason db) there alive
