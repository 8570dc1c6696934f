-- ===== src/Store/Action.antt =====
-- A service call: state and exceptions. What was written before a throw stays written, since the
-- modelled calls open no transaction.
use ivis_backend.Base.{ℕ, suc, Bool, Option, none, some, if◌then◌else◌}
use ivis_backend.Store.Entities.{Db}

pub data Resource : Type 0 where
  customer vehicle_record anpr_capture centre line admin_pc camera appointment job payment :
      Resource

-- The messages of BadRequestException, by their occasion.
pub data Reason : Type 0 where
  already_converted no_customer not_captured rop_failed rop_pending expired no_chassis unpaid :
      Reason
  no_plate no_line no_user user_not_on_line : Reason
  charge_gone charge_of_other_centre amount_mismatch : Reason
  submitted_late : Reason

-- custom.exception.ts; `database` is also what a violated constraint of the database raises.
pub data Error : Type 0 where
  not_found : Resource → Error
  duplicate : Resource → Error
  bad_request : Reason → Error
  database : Error

pub data Result (A : Type 0) : Type 0 where
  ok : A → Result A
  err : Error → Result A

abbrev pub Action : Type 0 → Type 0
Action A = Db → Result A × Db

module _ {A : Type 0} where
  abbrev pub pure : A → Action A
  pure a db = (ok a, db)

  abbrev pub throw : Error → Action A
  throw e db = (err e, db)

  abbrev pub gets : (Db → A) → Action A
  gets f db = (ok (f db), db)

  -- `if (!x) throw e`
  abbrev pub or_throw : Option A → Error → Action A
  or_throw none e = throw e
  or_throw (some a) e = pure a

  -- `catch (error) { if (Duplicate or NotFound) throw error; throw new DatabaseException() }`
  abbrev pub hide_other_errors : Result A × Db → Result A × Db
  hide_other_errors (ok a, db) = (ok a, db)
  hide_other_errors (err (Error.not_found r), db) = (err (Error.not_found r), db)
  hide_other_errors (err (Error.duplicate r), db) = (err (Error.duplicate r), db)
  hide_other_errors (err (Error.bad_request r), db) = (err Error.database, db)
  hide_other_errors (err Error.database, db) = (err Error.database, db)

infixl 5 ◌>>=◌ ◌>>◌
abbrev pub ◌>>=◌ : {A B : Type 0} → Action A → (A → Action B) → Action B
◌>>=◌ m f db = let (r, db') = m db in elim r [ ok a ↦ f a db' | err e ↦ (err e, db') ]

abbrev pub ◌>>◌ : {B : Type 0} → Action (Unit {0}) → Action B → Action B
m >> k = m >>= λ _. k

abbrev pub throw_if : Bool → Error → Action (Unit {0})
throw_if c e db = (if c then err e else ok tt, db)

abbrev pub modify : (Db → Db) → Action (Unit {0})
modify f db = (ok tt, f db)

-- `generateSnowflakeId()`
abbrev pub generate_snowflake_id : Action ℕ
generate_snowflake_id db = (ok db.next_id, record db { next_id = suc db.next_id })
