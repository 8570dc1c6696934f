-- ===== src/Ingest/Visits.antt =====
-- What following the provider may change of an appointment.
use ivis_backend.Base.{
  ℕ, Bool, true, false, none, List, is_some, ◌≡◌, refl, ap, ◌∙◌, arith, RowByRow, if-cases,
}
use ivis_backend.Store.Entities.{AppointmentStatus, Appointment}
use ivis_backend.Ingest.Reconcile.{
  is_cancelled_visit, is_queued, requeued, filled_text, unblocked, is_moved, moved,
}

-- An appointment without the three columns that follow the provider.
abbrev pub steady : Appointment → Appointment
steady a = record a {
  status = AppointmentStatus.queued;
  appointment_at = none;
  auto_convert_blocked_reason = none;
}

abbrev pub is_settled : AppointmentStatus → Bool
is_settled AppointmentStatus.queued = false
is_settled AppointmentStatus.cancelled = false
is_settled AppointmentStatus.scheduled = true
is_settled AppointmentStatus.converted = true

-- What may become of one appointment: nothing but its status, slot and note changes; nothing at all if it
-- is deleted; a converted or scheduled one keeps its status, and no other becomes one; and where the
-- vehicle has arrived, the slot stays and a queued one stays queued.
pub record Follows (a b : Appointment) : Type 0 where
  pub framed : steady b ≡ steady a
  pub deleted : a.is_deleted ≡ true → b ≡ a
  pub settled : is_settled a.status ≡ true → b.status ≡ a.status
  pub unsettled : is_settled b.status ≡ is_settled a.status
  pub slot : is_some a.anpr_capture ≡ true → b.appointment_at ≡ a.appointment_at
  pub arrived :
      is_some a.anpr_capture ≡ true → is_queued a.status ≡ true → is_queued b.status ≡ true

pub Follows-refl : (a : Appointment) → Follows a a
Follows-refl a = record {
  framed = refl;
  deleted = λ _. refl;
  settled = λ _. refl;
  unsettled = refl;
  slot = λ _. refl;
  arrived = λ _ q. q;
}

pub Follows-trans : (a b c : Appointment) → Follows a b → Follows b c → Follows a c
Follows-trans a b c f g =
    let captured : is_some b.anpr_capture ≡ is_some a.anpr_capture =
      ap (λ (q : Appointment). is_some q.anpr_capture) f.framed in
    let gone : b.is_deleted ≡ a.is_deleted = ap (λ (q : Appointment). q.is_deleted) f.framed in
    record {
      framed = g.framed ∙ f.framed;
      deleted = λ d. g.deleted (gone ∙ d) ∙ f.deleted d;
      settled = λ s. g.settled (f.unsettled ∙ s) ∙ f.settled s;
      unsettled = g.unsettled ∙ f.unsettled;
      slot = λ h. g.slot (captured ∙ h) ∙ f.slot h;
      arrived = λ h q. g.arrived (captured ∙ h) (f.arrived h q);
    }

-- Row by row, in place.
abbrev pub AllFollow : List Appointment → List Appointment → Type 0
AllFollow = RowByRow Follows

pub requeued-Follows : (a : Appointment) → a.is_deleted ≡ false → Follows a (requeued a)
requeued-Follows a live =
    if-cases (Follows a) (is_cancelled_visit a.status)
      (λ cancelled. record {
        framed = refl;
        deleted = λ d. absurd cc;
        settled = λ s. ground arith;
        unsettled = ground arith;
        slot = λ _. refl;
        arrived = λ _ q. ground arith;
      })
      (λ _. Follows-refl a)

pub unblocked-Follows : (a : Appointment) → a.is_deleted ≡ false → Follows a (unblocked a)
unblocked-Follows a live =
    if-cases (Follows a) (is_some (filled_text a.auto_convert_blocked_reason))
      (λ _. record {
        framed = refl;
        deleted = λ d. absurd cc;
        settled = λ _. refl;
        unsettled = refl;
        slot = λ _. refl;
        arrived = λ _ q. q;
      })
      (λ _. Follows-refl a)

pub moved-Follows : (slot : ℕ) (a : Appointment) → a.is_deleted ≡ false → Follows a (moved slot a)
moved-Follows slot a live =
    if-cases (Follows a) (is_moved slot a)
      (λ elsewhere. record {
        framed = refl;
        deleted = λ d. absurd cc;
        settled = λ _. refl;
        unsettled = refl;
        slot = λ h. ground arith;
        arrived = λ _ q. q;
      })
      (λ _. Follows-refl a)

-- All three changes.
pub follower-Follows :
    (slot : ℕ) (a : Appointment)
    → a.is_deleted ≡ false
    → Follows a (moved slot (unblocked (requeued a)))
follower-Follows slot a live =
    let one = requeued-Follows a live in
    let live1 : (requeued a).is_deleted ≡ false =
      ap (λ (q : Appointment). q.is_deleted) one.framed ∙ live in
    let two =
      Follows-trans a (requeued a) (unblocked (requeued a)) one
        (unblocked-Follows (requeued a) live1) in
    Follows-trans a (unblocked (requeued a)) (moved slot (unblocked (requeued a))) two (
      moved-Follows slot (unblocked (requeued a))
        (ap (λ (q : Appointment). q.is_deleted) two.framed ∙ live))
