-- ===== src/Ingest/Untouched.antt =====
-- A pass over a day writes two tables only, and of payments only the status.
use ivis_backend.Base.{
  ℕ, ◌==◌, Bool, true, false, Option, none, some, List, [], ◌∷◌, update_first, ◌≡◌, refl, ap, ◌∙◌,
  Bool-cases, inl, inr, RowByRow, RowByRow-refl, RowByRow-trans, if-cases,
}
use ivis_backend.Store.Entities.{
  AppointmentStatus, Appointment, PaymentStatus, Payment, AppointmentBooking, Db, is_cancelled,
}
use ivis_backend.Ingest.Dao.{is_some_text}
use ivis_backend.Ingest.Bookings.{Formats, to_instant}
use ivis_backend.Ingest.Reconcile.{
  appointment_by_id, patch_appointment, set_payment_status, payment_of_booking, cancel_found,
  restore_found, cancel_payment_for, restore_payment_for, is_cancelled_visit, can_auto_cancel,
  upstream_reason, handle_withdrawn, requeued, unblocked, moved, is_changed, restored_if, saved_if,
  follow, sync_found, sync_one, sync_all,
}

-- A payment without its status.
abbrev pub unsettled : Payment → Payment
unsettled p = record p { status = PaymentStatus.paid }

abbrev pub SamePayment : Payment → Payment → Type 0
SamePayment p q = unsettled q ≡ unsettled p

abbrev pub SamePayments : List Payment → List Payment → Type 0
SamePayments = RowByRow SamePayment

-- Every other table is as it was, and of payments at most the status is not.
pub record Untouched (db after : Db) : Type 0 where
  pub others : after ≡ record db { appointments = after.appointments; payments = after.payments }
  pub payments : SamePayments db.payments after.payments

same_refl : (p : Payment) → SamePayment p p
same_refl p = refl

same_trans : (p q r : Payment) → SamePayment p q → SamePayment q r → SamePayment p r
same_trans p q r h k = k ∙ h

Untouched-refl : (db : Db) → Untouched db db
Untouched-refl db = record {
  others = refl;
  payments = RowByRow-refl SamePayment same_refl db.payments;
}

Untouched-trans : {db mid after : Db} → Untouched db mid → Untouched mid after → Untouched db after
Untouched-trans {db} {mid} {after} f g = record {
  others =
      g.others
      ∙ ap (λ (d : Db). record d { appointments = after.appointments; payments = after.payments })
          f.others;
  payments =
      RowByRow-trans SamePayment same_trans db.payments mid.payments after.payments f.payments
        g.payments;
}

patch_appointment-Untouched :
    (id : ℕ) (change : Appointment → Appointment) (db : Db)
    → Untouched db (patch_appointment id change db)
patch_appointment-Untouched id change db = record {
  others = refl;
  payments = RowByRow-refl SamePayment same_refl db.payments;
}

status_rows :
    (status : PaymentStatus) (id : ℕ) (rows : List Payment)
    → SamePayments rows (update_first (λ p. p.id == id) (λ p. record p { status = status }) rows)
status_rows status id [] = tt
status_rows status id (p ∷ rows) = elim (Bool-cases (p.id == id)) [
  | inl here ↦ rw (here, update_first) (refl, RowByRow-refl SamePayment same_refl rows)
  | inr later ↦ rw (later, update_first) (refl, status_rows status id rows)
]

set_payment_status-Untouched :
    (status : PaymentStatus) (id : ℕ) (db : Db) → Untouched db (set_payment_status status id db)
set_payment_status-Untouched status id db = record {
  others = refl;
  payments = status_rows status id db.payments;
}

cancel_found-Untouched : (o : Option Payment) (db : Db) → Untouched db (cancel_found o db)
cancel_found-Untouched none db = Untouched-refl db
cancel_found-Untouched (some p) db =
    if-cases (Untouched db) (is_cancelled p.status) (λ _. Untouched-refl db)
      (λ _. set_payment_status-Untouched PaymentStatus.cancelled p.id db)

restore_found-Untouched : (o : Option Payment) (db : Db) → Untouched db (restore_found o db)
restore_found-Untouched none db = Untouched-refl db
restore_found-Untouched (some p) db =
    if-cases (Untouched db) (is_cancelled p.status)
      (λ _. set_payment_status-Untouched PaymentStatus.paid p.id db) (λ _. Untouched-refl db)

handle_withdrawn-Untouched :
    (booking : AppointmentBooking) (a : Appointment) (db : Db)
    → Untouched db (handle_withdrawn booking a db)
unfolding handle_withdrawn cancel_payment_for
handle_withdrawn-Untouched booking a db =
    if-cases (Untouched db) (is_cancelled_visit a.status) (λ _. Untouched-refl db)
      λ _.
        if-cases (Untouched db) (can_auto_cancel a)
          (λ _.
            let cancelled =
              patch_appointment a.id (λ q. record q { status = AppointmentStatus.cancelled }) db in
            Untouched-trans
              (patch_appointment-Untouched a.id
                (λ q. record q { status = AppointmentStatus.cancelled }) db)
              (cancel_found-Untouched (payment_of_booking booking cancelled) cancelled))
          λ _.
            if-cases (Untouched db) (is_some_text a.auto_convert_blocked_reason upstream_reason)
              (λ _. Untouched-refl db)
              (λ _.
                patch_appointment-Untouched a.id
                  (λ q. record q { auto_convert_blocked_reason = some upstream_reason }) db)

restored_if-Untouched :
    (b : Bool) (booking : AppointmentBooking) (db : Db) → Untouched db (restored_if b booking db)
unfolding restore_payment_for
restored_if-Untouched true booking db = restore_found-Untouched (payment_of_booking booking db) db
restored_if-Untouched false booking db = Untouched-refl db

saved_if-Untouched : (b : Bool) (a : Appointment) (db : Db) → Untouched db (saved_if b a db)
saved_if-Untouched true a db = patch_appointment-Untouched a.id (λ _. a) db
saved_if-Untouched false a db = Untouched-refl db

sync_found-Untouched :
    (f : Formats) (booking : AppointmentBooking) (o : Option Appointment) (db : Db)
    → Untouched db (sync_found f booking o db)
unfolding sync_found follow
sync_found-Untouched f booking none db = Untouched-refl db
sync_found-Untouched f booking (some a) db =
    if-cases (Untouched db) a.is_deleted (λ _. Untouched-refl db)
      λ _.
        if-cases (Untouched db) booking.is_withdrawn (λ _. handle_withdrawn-Untouched booking a db)
          λ _.
            let slot = to_instant f booking.booking_date booking.booking_time in
            let restored = restored_if (is_cancelled_visit a.status) booking db in
            Untouched-trans (restored_if-Untouched (is_cancelled_visit a.status) booking db) (
              saved_if-Untouched (is_changed slot a) (moved slot (unblocked (requeued a))) restored)

sync_one-Untouched :
    (f : Formats) (booking : AppointmentBooking) (db : Db) → Untouched db (sync_one f booking db)
unfolding sync_one
sync_one-Untouched f booking db = go booking.appointment_id
  where
    go :
        (o : Option ℕ)
        → Untouched db (elim o as (λ _. Db) [
          | none ↦ db
          | some id ↦ sync_found f booking (appointment_by_id id db) db
        ])
    go none = Untouched-refl db
    go (some id) = sync_found-Untouched f booking (appointment_by_id id db) db

pub sync_all-Untouched :
    (f : Formats) (held : List AppointmentBooking) (db : Db) → Untouched db (sync_all f held db)
unfolding sync_all
sync_all-Untouched f [] db = Untouched-refl db
sync_all-Untouched f (b ∷ held) db =
    Untouched-trans (sync_one-Untouched f b db) (sync_all-Untouched f held (sync_one f b db))
