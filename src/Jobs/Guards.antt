-- ===== src/Jobs/Guards.antt =====
-- What the guards of a conversion have checked when they let an appointment through.
use ivis_backend.Base.{ℕ, true, false, Option, none, some, refl, ◌≡◌, arith}
use ivis_backend.Store.Entities.{AnprCapture, Appointment, Db}
use ivis_backend.Store.Action.{Reason, ok}
use ivis_backend.Jobs.Conversion.{
  convertible, is_converted, rop_fault, is_expired, is_paid, is_empty, chassis_on_file,
  throw_reason,
}

throw_reason_inv :
    (r : Option Reason) {db db' : Db} {u : Unit {0}}
    → throw_reason r db ≡ (ok u, db')
    → (r ≡ none) × (db' ≡ db)
throw_reason_inv none e = (refl, cc)
throw_reason_inv (some r) e = absurd cc

-- The guards of a conversion.
pub record Ready (a : Appointment) (now : ℕ) (db : Db) (customer : ℕ) (capture : AnprCapture)
    : Type 0 where
  pub not_converted : is_converted a.status ≡ false
  pub has_customer : a.customer_id ≡ some customer
  pub has_capture : a.anpr_capture ≡ some capture
  pub is_validated : rop_fault a.rop_status ≡ none
  pub not_expired : is_expired a now ≡ false
  pub has_chassis : is_empty (chassis_on_file a db) ≡ false
  pub is_settled : is_paid a db ≡ true

pub convertible_inv :
    (a : Appointment) (now : ℕ) (db db' : Db) {customer : ℕ} {capture : AnprCapture}
    → convertible a now db ≡ (ok (customer, capture), db')
    → Ready a now db customer capture × (db' ≡ db)
unfolding convertible
convertible_inv a now db db' {customer} {capture} e = (
  record {
    not_converted = ground arith;
    has_customer = ground arith;
    has_capture = ground arith;
    is_validated = ground arith;
    not_expired = ground arith;
    has_chassis = ground arith;
    is_settled = ground arith;
  },
  ground arith,
)
