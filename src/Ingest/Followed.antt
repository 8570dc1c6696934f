-- ===== src/Ingest/Followed.antt =====
-- A pass over a day changes appointments only in the ways that `Follows` lists.
use ivis_backend.Base.{
  ℕ, ◌==◌, Bool, true, false, Option, none, some, List, [], ◌∷◌, find, find_passes, update_first,
  Text, ◌≡◌, refl, sym, ap, ◌∙◌, subst, arith, Bool-cases, inl, inr, RowByRow-refl, RowByRow-trans,
  RowByRow-update_first, if-cases,
}
use ivis_backend.Store.Entities.{
  AppointmentStatus, Appointment, Payment, AppointmentBooking, Db, is_cancelled,
}
use ivis_backend.Ingest.Dao.{find_by_centre_and_date, is_some_text}
use ivis_backend.Ingest.Bookings.{Formats, to_instant}
use ivis_backend.Ingest.Reconcile.{
  appointment_by_id, patch_appointment, payment_of_booking, cancel_found, restore_found,
  cancel_payment_for, restore_payment_for, is_cancelled_visit, can_auto_cancel, upstream_reason,
  handle_withdrawn, requeued, unblocked, moved, is_changed, restored_if, saved_if, follow,
  sync_found, sync_one, sync_all, sync_promoted,
}
use ivis_backend.Ingest.Untouched.{Untouched, sync_all-Untouched}
use ivis_backend.Ingest.Visits.{Follows, Follows-refl, Follows-trans, AllFollow, follower-Follows}

-- Payments are another table.
pub cancel_payment_for-appointments :
    (booking : AppointmentBooking) (db : Db)
    → (cancel_payment_for booking db).appointments ≡ db.appointments
unfolding cancel_payment_for
cancel_payment_for-appointments booking db = go (payment_of_booking booking db)
  where
    go : (o : Option Payment) → (cancel_found o db).appointments ≡ db.appointments
    go none = refl
    go (some p) =
        if-cases (λ (d : Db). d.appointments ≡ db.appointments) (is_cancelled p.status) (λ _. refl)
          (λ _. refl)

pub restored_if-appointments :
    (b : Bool) (booking : AppointmentBooking) (db : Db)
    → (restored_if b booking db).appointments ≡ db.appointments
unfolding restore_payment_for
restored_if-appointments false booking db = refl
restored_if-appointments true booking db = go (payment_of_booking booking db)
  where
    go : (o : Option Payment) → (restore_found o db).appointments ≡ db.appointments
    go none = refl
    go (some p) =
        if-cases (λ (d : Db). d.appointments ≡ db.appointments) (is_cancelled p.status) (λ _. refl)
          (λ _. refl)

pub appointment_by_own_id :
    (id : ℕ) (rows : List Appointment) {a : Appointment}
    → find (λ q. q.id == id) rows ≡ some a
    → find (λ q. q.id == a.id) rows ≡ some a
appointment_by_own_id id rows {a} e =
    let same : a.id ≡ id =
      let hit = find_passes (λ (q : Appointment). q.id == id) rows e in ground arith in
    ap (λ k. find (λ (q : Appointment). q.id == k) rows) same ∙ e

module _ (booking : AppointmentBooking) (a : Appointment) (db : Db)
    (found : find (λ q. q.id == a.id) db.appointments ≡ some a) (live : a.is_deleted ≡ false) where
  patched :
      (change : Appointment → Appointment)
      → Follows a (change a)
      → AllFollow db.appointments (patch_appointment a.id change db).appointments
  patched change h =
      RowByRow-update_first Follows Follows-refl (λ q. q.id == a.id) change db.appointments found h

  auto_cancel-Follows :
      is_cancelled_visit a.status ≡ false
      → can_auto_cancel a ≡ true
      → Follows a (record a { status = AppointmentStatus.cancelled })
  auto_cancel-Follows other can = record {
    framed = refl;
    deleted = λ d. absurd cc;
    settled = λ s. ground arith;
    unsettled = ground arith;
    slot = λ _. refl;
    arrived = λ h q. ground arith;
  }

  noted-Follows : Follows a (record a { auto_convert_blocked_reason = some upstream_reason })
  noted-Follows = record {
    framed = refl;
    deleted = λ d. absurd cc;
    settled = λ _. refl;
    unsettled = refl;
    slot = λ _. refl;
    arrived = λ _ q. q;
  }

  handle_withdrawn-AllFollow :
      AllFollow db.appointments (handle_withdrawn booking a db).appointments
  unfolding handle_withdrawn
  handle_withdrawn-AllFollow =
      if-cases (λ (d : Db). AllFollow db.appointments d.appointments) (is_cancelled_visit a.status)
        (λ _. RowByRow-refl Follows Follows-refl db.appointments)
        λ other.
          if-cases (λ (d : Db). AllFollow db.appointments d.appointments) (can_auto_cancel a)
            (λ can.
              subst (λ rows. AllFollow db.appointments rows)
                (sym (
                  cancel_payment_for-appointments booking (
                    patch_appointment a.id (λ q. record q { status = AppointmentStatus.cancelled })
                      db)))
                (patched (λ q. record q { status = AppointmentStatus.cancelled })
                  (auto_cancel-Follows other can)))
            λ _.
              if-cases (λ (d : Db). AllFollow db.appointments d.appointments)
                (is_some_text a.auto_convert_blocked_reason upstream_reason)
                (λ _. RowByRow-refl Follows Follows-refl db.appointments)
                (λ _.
                  patched (λ q. record q { auto_convert_blocked_reason = some upstream_reason })
                    noted-Follows)

  saved_if-AllFollow :
      (changed : Bool) (b : Appointment) (d : Db)
      → Follows a b
      → d.appointments ≡ db.appointments
      → AllFollow db.appointments (saved_if changed b d).appointments
  saved_if-AllFollow false b d h same =
      subst (λ rows. AllFollow db.appointments rows) (sym same)
        (RowByRow-refl Follows Follows-refl db.appointments)
  saved_if-AllFollow true b d h same =
      let ids : b.id ≡ a.id = ap (λ (q : Appointment). q.id) h.framed in
      subst (λ rows. AllFollow db.appointments (update_first (λ q. q.id == b.id) (λ _. b) rows))
        (sym same)
        (subst
          (λ k. AllFollow db.appointments (update_first (λ q. q.id == k) (λ _. b) db.appointments))
          (sym ids)
          (RowByRow-update_first Follows Follows-refl (λ q. q.id == a.id) (λ _. b) db.appointments
            found h))

  sync_live-AllFollow :
      (f : Formats) → AllFollow db.appointments (sync_found f booking (some a) db).appointments
  unfolding sync_found follow
  sync_live-AllFollow f =
      let slot = to_instant f booking.booking_date booking.booking_time in
      if-cases (λ (d : Db). AllFollow db.appointments d.appointments) a.is_deleted
        (λ _. RowByRow-refl Follows Follows-refl db.appointments)
        λ _.
          if-cases (λ (d : Db). AllFollow db.appointments d.appointments) booking.is_withdrawn
            (λ _. handle_withdrawn-AllFollow)
            (λ _.
              saved_if-AllFollow (is_changed slot a) (moved slot (unblocked (requeued a)))
                (restored_if (is_cancelled_visit a.status) booking db)
                (follower-Follows slot a live)
                (restored_if-appointments (is_cancelled_visit a.status) booking db))

sync_found-AllFollow :
    (f : Formats) (booking : AppointmentBooking) (id : ℕ) (db : Db) (o : Option Appointment)
    → appointment_by_id id db ≡ o
    → AllFollow db.appointments (sync_found f booking o db).appointments
unfolding sync_found
sync_found-AllFollow f booking id db none e = RowByRow-refl Follows Follows-refl db.appointments
sync_found-AllFollow f booking id db (some a) e = elim (Bool-cases a.is_deleted) [
  | inl gone ↦ rw gone (RowByRow-refl Follows Follows-refl db.appointments)
  | inr live ↦ sync_live-AllFollow booking a db (appointment_by_own_id id db.appointments e) live f
]

sync_one-AllFollow :
    (f : Formats) (booking : AppointmentBooking) (db : Db)
    → AllFollow db.appointments (sync_one f booking db).appointments
unfolding sync_one
sync_one-AllFollow f booking db = go booking.appointment_id
  where
    go :
        (o : Option ℕ)
        → AllFollow db.appointments
            (elim o as (λ _. Db) [
              | none ↦ db
              | some id ↦ sync_found f booking (appointment_by_id id db) db
            ]).appointments
    go none = RowByRow-refl Follows Follows-refl db.appointments
    go (some id) = sync_found-AllFollow f booking id db (appointment_by_id id db) refl

sync_all-AllFollow :
    (f : Formats) (held : List AppointmentBooking) (db : Db)
    → AllFollow db.appointments (sync_all f held db).appointments
unfolding sync_all
sync_all-AllFollow f [] db = RowByRow-refl Follows Follows-refl db.appointments
sync_all-AllFollow f (b ∷ held) db =
    RowByRow-trans Follows Follows-trans db.appointments (sync_one f b db).appointments
      (sync_all f held (sync_one f b db)).appointments (sync_one-AllFollow f b db)
      (sync_all-AllFollow f held (sync_one f b db))

-- Following the bookings of a day, whatever they say, writes no table but appointments and payments, and
-- of payments nothing but the status; it neither adds, removes nor reorders rows of either; it changes
-- nothing of an appointment but its status, its slot and its note, and nothing at all of a
-- deleted one; converted and scheduled ones keep their status and no other becomes one; and once the
-- vehicle has arrived, the slot stays and a queued appointment stays queued.
pub sync_promoted-AllFollow :
    (f : Formats) (centre : ℕ) (day : Text) (db : Db)
    → AllFollow db.appointments (sync_promoted f centre day db).appointments
      × Untouched db (sync_promoted f centre day db)
unfolding sync_promoted
sync_promoted-AllFollow f centre day db =
    let held = find_by_centre_and_date centre day db in
    (sync_all-AllFollow f held db, sync_all-Untouched f held db)
