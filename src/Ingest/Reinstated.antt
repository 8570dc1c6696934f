-- ===== src/Ingest/Reinstated.antt =====
-- A booking that is withdrawn and comes back, and a visit that was cancelled here.
use ivis_backend.Base.{
  ℕ, ◌==◌, ◌≤◌, Bool, true, false, ◌&&◌, not, Option, none, some, List, [], ◌∷◌, is_some, find,
  tally, find_passes, find_unique, Memᴰ-find, find-update_first_both, update_first, Text, ◌≡◌, refl,
  sym, ap, ◌∙◌, subst, arith, Bool-cases, Option-cases, inl, inr, if◌then◌else◌, if_false, if_true,
}
use ivis_backend.Store.Entities.{
  AppointmentStatus, PaymentStatus, Appointment, Payment, AppointmentBooking, Db, is_cancelled,
}
use ivis_backend.Ingest.Dao.{is_some_text, find_by_provider_reference}
use ivis_backend.Ingest.Bookings.{Formats, to_instant}
use ivis_backend.Ingest.Reconcile.{
  appointment_by_id, patch_appointment, payment_of_booking, set_payment_status, cancel_found,
  restore_found, cancel_payment_for, restore_payment_for, is_cancelled_visit, is_queued,
  handle_withdrawn, requeued, filled_text, unblocked, moved, is_at, follow, sync_found, sync_one,
}
use ivis_backend.Ingest.Followed.{appointment_by_own_id, cancel_payment_for-appointments}

update_first-undone :
    {A : Type 0} (hit : A → Bool) (g f : A → A) (xs : List A) {x : A}
    → find hit xs ≡ some x
    → hit (f x) ≡ true
    → g (f x) ≡ x
    → update_first hit g (update_first hit f xs) ≡ xs
update_first-undone hit g f [] e h back = absurd cc
update_first-undone hit g f (y ∷ ys) {x} e h back = elim (Bool-cases (hit y)) [
  | inl here ↦
      let same : x ≡ y = ground arith in
      let again : hit (f y) ≡ true = ap (λ q. hit (f q)) (sym same) ∙ h in
      rw (here, update_first)
        (rw (again, update_first) (ap (λ q. q ∷ ys) (ap (λ q. g (f q)) (sym same) ∙ back ∙ same)))
  | inr later ↦
      rw (later, update_first)
        (rw (later, update_first)
          (ap (λ q. y ∷ q) (update_first-undone hit g f ys {x = x} (ground arith) h back)))
]

abbrev pub has_payment_id : ℕ → Payment → Bool
has_payment_id id p = p.id == id

-- The payment of a booking is found again once its status was set.
pub payment-set :
    (booking : AppointmentBooking) (status : PaymentStatus) (db : Db) {p : Payment}
    → ((id : ℕ) → tally (has_payment_id id) db.payments ≤ 1)
    → payment_of_booking booking db ≡ some p
    → (find (has_payment_id p.id) db.payments ≡ some p)
      × (payment_of_booking booking (set_payment_status status p.id db)
          ≡ some (record p { status = status }))
payment-set booking status db {p} distinct e = go (filled_text booking.payload.payment_reference) e
  where
    go :
        (reference : Option Text)
        → (elim reference as (λ _. Option Payment) [
          | none ↦ none
          | some r ↦ find_by_provider_reference r db
        ])
          ≡ some p
        → (find (has_payment_id p.id) db.payments ≡ some p)
          × ((elim reference as (λ _. Option Payment) [
            | none ↦ none
            | some r ↦ find_by_provider_reference r (set_payment_status status p.id db)
          ])
              ≡ some (record p { status = status }))
    go none h = absurd cc
    go (some r) h =
        let test : Payment → Bool =
          λ q. is_some_text q.provider_payment_reference r && not q.is_deleted in
        let own =
          find_unique (has_payment_id p.id) db.payments (Memᴰ-find test db.payments h)
            (ground arith) (distinct p.id) in
        (
          own,
          find-update_first_both test (has_payment_id p.id) (λ q. record q { status = status })
              db.payments own h (find_passes test db.payments h),
        )

-- Every payment of the booking stands as paid.
abbrev pub IsPaidFor : AppointmentBooking → Db → Type 0
IsPaidFor booking db =
    (p : Payment) → payment_of_booking booking db ≡ some p → p.status ≡ PaymentStatus.paid

restored-cancelled :
    (booking : AppointmentBooking) (db : Db)
    → ((id : ℕ) → tally (has_payment_id id) db.payments ≤ 1)
    → IsPaidFor booking db
    → restore_payment_for booking (cancel_payment_for booking db) ≡ db
unfolding restore_payment_for cancel_payment_for
restored-cancelled booking db distinct paid = elim (Option-cases (payment_of_booking booking db)) [
  | inl e ↦
      subst
        (λ o.
          restore_found (payment_of_booking booking (cancel_found o db)) (cancel_found o db) ≡ db)
        (sym e) (ap (λ o. restore_found o db) e)
  | inr (p, e) ↦
      let (own, again) = payment-set booking PaymentStatus.cancelled db distinct e in
      let cancelled_now : cancel_found (payment_of_booking booking db) db
          ≡ set_payment_status PaymentStatus.cancelled p.id db =
        ap (λ o. cancel_found o db) e
        ∙ ap
            (λ s. if is_cancelled s then db else set_payment_status PaymentStatus.cancelled p.id db)
            (paid p e) in
      ap (λ d. restore_found (payment_of_booking booking d) d) cancelled_now
      ∙ ap (λ o. restore_found o (set_payment_status PaymentStatus.cancelled p.id db)) again
      ∙ ap (λ ps. record db { payments = ps })
          (update_first-undone (has_payment_id p.id) (λ q. record q { status = PaymentStatus.paid })
            (λ q. record q { status = PaymentStatus.cancelled }) db.payments own
            (find_passes (has_payment_id p.id) db.payments own)
            (ap (λ s. record p { status = s }) (sym (paid p e))))
]

abbrev pub with_withdrawn : Bool → AppointmentBooking → AppointmentBooking
with_withdrawn b booking = record booking { is_withdrawn = b }

-- A placeholder at its slot: queued, with no vehicle and no note.
pub record IsWaiting (slot : ℕ) (a : Appointment) : Type 0 where
  pub live : a.is_deleted ≡ false
  pub queued : a.status ≡ AppointmentStatus.queued
  pub absent : a.anpr_capture ≡ none
  pub unnoted : a.auto_convert_blocked_reason ≡ none
  pub at_slot : a.appointment_at ≡ some slot

abbrev cancelled_visit : Appointment → Appointment
cancelled_visit a = record a { status = AppointmentStatus.cancelled }

module _ (f : Formats) (booking : AppointmentBooking) (id : ℕ) (a : Appointment) (db : Db)
    (promoted : booking.appointment_id ≡ some id) (found : appointment_by_id id db ≡ some a)
    (waiting : IsWaiting (to_instant f booking.booking_date booking.booking_time) a) where
  own : find (λ q. q.id == a.id) db.appointments ≡ some a
  own = appointment_by_own_id id db.appointments found

  as_it_was :
      moved
        (to_instant f booking.booking_date booking.booking_time)
        (unblocked (requeued (cancelled_visit a)))
      ≡ a
  as_it_was =
      let slot = to_instant f booking.booking_date booking.booking_time in
      let at_slot = waiting.at_slot in
      let back : requeued (cancelled_visit a) ≡ a =
        ap (λ s. record a { status = s }) (sym waiting.queued) in
      ap (λ b. moved slot (unblocked b)) back
      ∙ ap (moved slot) (if_false _ (ap (λ o. is_some (filled_text o)) waiting.unnoted))
      ∙ if_false _
          (ap (λ o. not (is_some a.anpr_capture) && not (is_at o slot)) at_slot ∙ ground arith)

  withdrawn_step :
      sync_one f (with_withdrawn true booking) db
      ≡ cancel_payment_for booking (patch_appointment a.id cancelled_visit db)
  unfolding sync_one sync_found handle_withdrawn cancel_payment_for
  withdrawn_step =
      let live = waiting.live in
      let queued = waiting.queued in
      let absent = waiting.absent in
      ap
        (λ o. elim o as (λ _. Db) [
          | none ↦ db
          | some k ↦ sync_found f (with_withdrawn true booking) (appointment_by_id k db) db
        ])
        promoted
      ∙ ap (λ o. sync_found f (with_withdrawn true booking) o db) found
      ∙ if_false _ live
      ∙ if_false _ (ap is_cancelled_visit queued)
      ∙ if_true _ (
          ap (λ s. is_queued s && not (is_some a.anpr_capture)) queued
          ∙ ap (λ o. not (is_some o)) absent)

  reinstated_step :
      (d : Db)
      → appointment_by_id id d ≡ some (cancelled_visit a)
      → sync_one f (with_withdrawn false booking) d
        ≡ patch_appointment a.id (λ _. a) (restore_payment_for booking d)
  unfolding sync_one sync_found follow restore_payment_for
  reinstated_step d e =
      let slot = to_instant f booking.booking_date booking.booking_time in
      ap
        (λ o. elim o as (λ _. Db) [
          | none ↦ d
          | some k ↦ sync_found f (with_withdrawn false booking) (appointment_by_id k d) d
        ])
        promoted
      ∙ ap (λ o. sync_found f (with_withdrawn false booking) o d) e
      ∙ if_false _ waiting.live
      ∙ ap (λ b. patch_appointment b.id (λ _. b) (restore_payment_for booking d)) as_it_was

  -- Twice the placeholder is as it was.
  appointments_back :
      patch_appointment a.id (λ _. a) (patch_appointment a.id cancelled_visit db) ≡ db
  appointments_back =
      ap (λ rows. record db { appointments = rows })
        (update_first-undone (λ q. q.id == a.id) (λ _. a) cancelled_visit db.appointments own
          (find_passes (λ (q : Appointment). q.id == a.id) db.appointments own) refl)

  found_cancelled :
      appointment_by_id id (cancel_payment_for booking (patch_appointment a.id cancelled_visit db))
      ≡ some (cancelled_visit a)
  found_cancelled =
      ap (find (λ q. q.id == id))
        (cancel_payment_for-appointments booking (patch_appointment a.id cancelled_visit db))
      ∙ find-update_first_both (λ q. q.id == id) (λ q. q.id == a.id) cancelled_visit db.appointments
          own found (find_passes (λ (q : Appointment). q.id == id) db.appointments found)

  -- If a promoted booking has a waiting placeholder at its slot and its payment, if any, stands as paid,
  -- and the ids of payments are distinct, then a pass in which it is withdrawn and a pass in which it
  -- stands again leave the database as it was: visit and payment are cancelled and restored together.
  pub sync_one-reinstated :
      ((n : ℕ) → tally (has_payment_id n) db.payments ≤ 1)
      → IsPaidFor booking db
      → sync_one f (with_withdrawn false booking) (sync_one f (with_withdrawn true booking) db) ≡ db
  sync_one-reinstated distinct paid =
      let d = patch_appointment a.id cancelled_visit db in
      ap (sync_one f (with_withdrawn false booking)) withdrawn_step
      ∙ reinstated_step (cancel_payment_for booking d) found_cancelled
      ∙ ap (patch_appointment a.id (λ _. a)) (restored-cancelled booking d distinct paid)
      ∙ appointments_back
