-- ===== src/Store/Runs.antt =====
-- How a run of a service call is put together from, and taken apart into, the runs of its steps.
use ivis_backend.Base.{
  ◌≡◌, refl, Bool, true, false, Option, none, some, inl, inr, ◌∙◌, sym, ap, ◌⊎◌,
}
use ivis_backend.Store.Entities.{Db}
use ivis_backend.Store.Action.{
  Action, Error, Result, ok, err, ◌>>=◌, or_throw, throw_if, hide_other_errors,
}

module _ {A B : Type 0} where
  pub bind_ok :
      (m : Action A) (f : A → Action B) {db db' : Db} {a : A}
      → m db ≡ (ok a, db')
      → (m >>= f) db ≡ f a db'
  bind_ok m f e = ap (λ r. elim r.0 [ ok a ↦ f a r.1 | err q ↦ (err q, r.1) ]) e

  pub bind_err :
      (m : Action A) (f : A → Action B) {db db' : Db} {q : Error}
      → m db ≡ (err q, db')
      → (m >>= f) db ≡ (err q, db')
  bind_err m f e = ap (λ r. elim r.0 [ ok a ↦ f a r.1 | err q ↦ (err q, r.1) ]) e

module _ {A : Type 0} where
  -- What an action left, as a pattern that a proof can split on.
  pub Result-cases :
      (r : Result A × Db)
      → ((a : A) × (db : Db) × (r ≡ (ok a, db))) ⊎ ((q : Error) × (db : Db) × (r ≡ (err q, db)))
  Result-cases (ok a, db) = inl (a, db, refl)
  Result-cases (err q, db) = inr (q, db, refl)

module _ {A B : Type 0} where
  pub bind_inv :
      (m : Action A) (f : A → Action B) {db db' : Db} {b : B}
      → (m >>= f) db ≡ (ok b, db')
      → (a : A) × (mid : Db) × (m db ≡ (ok a, mid)) × (f a mid ≡ (ok b, db'))
  bind_inv m f {db} e = elim (Result-cases (m db)) [
    | inl (a, mid, ran) ↦ (a, mid, ran, sym (bind_ok m f ran) ∙ e)
    | inr (q, mid, failed) ↦ absurd (let z = sym (bind_err m f failed) ∙ e in cc)
  ]

module _ {A : Type 0} where
  pub or_throw_ok :
      {x : Option A} (q : Error) {db : Db} {a : A} → x ≡ some a → or_throw x q db ≡ (ok a, db)
  or_throw_ok q {db} e = ap (λ x. or_throw x q db) e

  pub or_throw_err : {x : Option A} (q : Error) {db : Db} → x ≡ none → or_throw x q db ≡ (err q, db)
  or_throw_err q {db} e = ap (λ x. or_throw x q db) e

  pub or_throw_inv :
      (x : Option A) (q : Error) {db db' : Db} {a : A}
      → or_throw x q db ≡ (ok a, db')
      → (x ≡ some a) × (db' ≡ db)
  or_throw_inv none q e = absurd cc
  or_throw_inv (some b) q e = (cc, cc)

pub throw_if_ok : {c : Bool} (q : Error) {db : Db} → c ≡ false → throw_if c q db ≡ (ok tt, db)
throw_if_ok q {db} e = ap (λ c. throw_if c q db) e

pub throw_if_err : {c : Bool} (q : Error) {db : Db} → c ≡ true → throw_if c q db ≡ (err q, db)
throw_if_err q {db} e = ap (λ c. throw_if c q db) e

pub throw_if_inv :
    (c : Bool) (q : Error) {db db' : Db} {u : Unit {0}}
    → throw_if c q db ≡ (ok u, db')
    → (c ≡ false) × (db' ≡ db)
throw_if_inv true q e = absurd cc
throw_if_inv false q e = (refl, cc)

pub hide_other_errors_inv :
    {A : Type 0} (r : Result A × Db) {a : A} {db : Db}
    → hide_other_errors r ≡ (ok a, db)
    → r ≡ (ok a, db)
hide_other_errors_inv (ok b, db) e = e
hide_other_errors_inv (err (Error.not_found r), db) e = absurd cc
hide_other_errors_inv (err (Error.duplicate r), db) e = absurd cc
hide_other_errors_inv (err (Error.bad_request r), db) e = absurd cc
hide_other_errors_inv (err Error.database, db) e = absurd cc

pub ok_inv :
    {A : Type 0} {a b : A} {x y : Db}
    → ◌≡◌ {A = Result A × Db} (ok a, x) (ok b, y)
    → (b ≡ a) × (y ≡ x)
ok_inv e = (cc, cc)

-- `bind_inv`, for a proof that goes on with the two runs.
pub split_run :
    {A B C : Type 0} (m : Action A) (f : A → Action B) {db db' : Db} {b : B}
    → (m >>= f) db ≡ (ok b, db')
    → ((a : A) (mid : Db) → m db ≡ (ok a, mid) → f a mid ≡ (ok b, db') → C)
    → C
split_run m f e k = let (a, mid, ran, rest) = bind_inv m f e in k a mid ran rest
