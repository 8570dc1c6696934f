-- ===== src/Ingest/Requeued.antt =====
-- A cancelled visit whose booking still stands with the provider.
use ivis_backend.Base.{
  ℕ, ◌==◌, ◌≤◌, Bool, true, false, ◌||◌, none, some, is_some, find, tally, find_passes,
  find-update_first_both, update_first, ◌≡◌, sym, ap, ◌∙◌, arith, Bool-cases, Option-cases, inl,
  inr, if◌then◌else◌, if-cases, if_false, if_true,
}
use ivis_backend.Store.Entities.{
  AppointmentStatus, PaymentStatus, Appointment, Payment, AppointmentBooking, Db, is_cancelled,
}
use ivis_backend.Ingest.Bookings.{Formats, to_instant}
use ivis_backend.Ingest.Reconcile.{
  appointment_by_id, patch_appointment, payment_of_booking, set_payment_status, restore_found,
  restore_payment_for, is_cancelled_visit, is_queued, requeued, filled_text, unblocked, is_moved,
  moved, restored_if, saved_if, follow, sync_found, sync_one,
}
use ivis_backend.Ingest.Visits.{follower-Follows}
use ivis_backend.Ingest.Followed.{appointment_by_own_id, restored_if-appointments}
use ivis_backend.Ingest.Reinstated.{has_payment_id, payment-set}

restored-standing :
    (booking : AppointmentBooking) (db : Db) {p : Payment}
    → ((id : ℕ) → tally (has_payment_id id) db.payments ≤ 1)
    → payment_of_booking booking (restore_payment_for booking db) ≡ some p
    → is_cancelled p.status ≡ false
unfolding restore_payment_for
restored-standing booking db {p} distinct e = elim (Option-cases (payment_of_booking booking db)) [
  | inl missing ↦
      let left : restore_found (payment_of_booking booking db) db ≡ db =
        ap (λ o. restore_found o db) missing in
      absurd
        (let z : none ≡ some p = sym missing ∙ ap (payment_of_booking booking) (sym left) ∙ e in cc)
  | inr (q, found) ↦ elim (Bool-cases (is_cancelled q.status)) [
    | inl was ↦
        let left : restore_found (payment_of_booking booking db) db
            ≡ set_payment_status PaymentStatus.paid q.id db =
          ap (λ o. restore_found o db) found
          ∙ ap (λ b. if b then set_payment_status PaymentStatus.paid q.id db else db) was in
        let (_, again) = payment-set booking PaymentStatus.paid db distinct found in
        let same : some (record q { status = PaymentStatus.paid }) ≡ some p =
          sym again ∙ ap (payment_of_booking booking) (sym left) ∙ e in
        ground arith
    | inr stood ↦
        let left : restore_found (payment_of_booking booking db) db ≡ db =
          ap (λ o. restore_found o db) found ∙ if_false _ stood in
        let same : some q ≡ some p = sym found ∙ ap (payment_of_booking booking) (sym left) ∙ e in
        ground arith
  ]
]

-- The payment of a booking stands cancelled.
abbrev pub has_cancelled_payment : AppointmentBooking → Db → Bool
has_cancelled_payment booking db = elim (payment_of_booking booking db) [
  | none ↦ false
  | some p ↦ is_cancelled p.status
]

not_cancelled :
    (booking : AppointmentBooking) (db : Db)
    → ((p : Payment) → payment_of_booking booking db ≡ some p → is_cancelled p.status ≡ false)
    → has_cancelled_payment booking db ≡ false
not_cancelled booking db h = elim (Option-cases (payment_of_booking booking db)) [
  | inl missing ↦ ap (λ o. elim o [ none ↦ false | some p ↦ is_cancelled p.status ]) missing
  | inr (p, found) ↦
      ap (λ o. elim o [ none ↦ false | some q ↦ is_cancelled q.status ]) found ∙ h p found
]

moved-queued :
    (slot : ℕ) (a : Appointment)
    → is_queued a.status ≡ true
    → is_queued (moved slot (unblocked a)).status ≡ true
moved-queued slot a q =
    let one : is_queued (unblocked a).status ≡ true =
      if-cases (λ (b : Appointment). is_queued b.status ≡ true)
        (is_some (filled_text a.auto_convert_blocked_reason)) (λ _. q) (λ _. q) in
    if-cases (λ (b : Appointment). is_queued b.status ≡ true) (is_moved slot (unblocked a))
      (λ _. one) (λ _. one)

module _ (f : Formats) (booking : AppointmentBooking) (id : ℕ) (a : Appointment) (db : Db)
    (promoted : booking.appointment_id ≡ some id) (stands : booking.is_withdrawn ≡ false)
    (found : appointment_by_id id db ≡ some a) (live : a.is_deleted ≡ false)
    (cancelled : a.status ≡ AppointmentStatus.cancelled) where
  abbrev slot_of : ℕ
  slot_of = to_instant f booking.booking_date booking.booking_time

  abbrev follower : Appointment
  follower = moved slot_of (unblocked (requeued a))

  step :
      sync_one f booking db
      ≡ patch_appointment follower.id (λ _. follower) (restore_payment_for booking db)
  unfolding sync_one sync_found follow
  step =
      ap
        (λ o. elim o as (λ _. Db) [
          | none ↦ db
          | some k ↦ sync_found f booking (appointment_by_id k db) db
        ])
        promoted
      ∙ ap (λ o. sync_found f booking o db) found
      ∙ if_false _ live
      ∙ if_false _ stands
      ∙ ap
          (λ s.
            saved_if
              (is_cancelled_visit s
                || (is_some (filled_text a.auto_convert_blocked_reason) || is_moved slot_of a))
              follower (restored_if (is_cancelled_visit s) booking db))
          cancelled

  -- If a booking is promoted and not withdrawn and its appointment is cancelled and not deleted, then a
  -- pass queues the appointment again, whoever cancelled it and whatever else is open for its plate; and
  -- if the ids of payments are distinct, its payment does not stand cancelled any more.
  pub sync_one-requeued :
      ((n : ℕ) → tally (has_payment_id n) db.payments ≤ 1)
      → (b : Appointment) × (appointment_by_id id (sync_one f booking db) ≡ some b)
        × (is_queued b.status ≡ true)
        × (has_cancelled_payment booking (sync_one f booking db) ≡ false)
  sync_one-requeued distinct =
      let rows = restored_if-appointments true booking db in
      let ids : follower.id ≡ a.id =
        ap (λ (q : Appointment). q.id) (follower-Follows slot_of a live).framed in
      let hit = find_passes (λ (q : Appointment). q.id == id) db.appointments found in
      (
        follower,
        ap (appointment_by_id id) step
            ∙ ap
                (λ r.
                  find (λ q. q.id == id)
                    (update_first (λ q. q.id == follower.id) (λ _. follower) r))
                rows
            ∙ ap
                (λ k.
                  find (λ q. q.id == id)
                    (update_first (λ q. q.id == k) (λ _. follower) db.appointments))
                ids
            ∙ find-update_first_both (λ q. q.id == id) (λ q. q.id == a.id) (λ _. follower)
                db.appointments (appointment_by_own_id id db.appointments found) found
                (ap (λ k. k == id) ids ∙ hit),
        moved-queued slot_of (requeued a) (
            ap (λ (q : Appointment). is_queued q.status)
              (if_true {x = record a { status = AppointmentStatus.queued }} a
                (ap is_cancelled_visit cancelled))),
        not_cancelled booking (sync_one f booking db) (λ p e.
            restored-standing booking db distinct (ap (payment_of_booking booking) (sym step) ∙ e)),
      )
