-- ===== src/Payments/Create.antt =====
-- A payment that is created: what was checked, what is written, and that it is written once per job.
use ivis_backend.Base.{
  ℕ, zero, suc, ◌==◌, ltb, Bool, true, false, ◌&&◌, not, Option, none, some, [], ◌∷◌, ◌++◌, Text,
  some_is, if◌then◌else◌, ◌≡◌, refl, sym, ap, ◌∙◌, inl, inr, arith, All, All-map, any, find_fresh,
  find-append_new, Bool-cases, Option-cases,
}
use ivis_backend.Store.Entities.{Payment, Db}
use ivis_backend.Store.Action.{
  Action, Error, Result, ok, err, pure, modify, throw_if, ◌>>=◌, ◌>>◌, hide_other_errors,
}
use ivis_backend.Store.Runs.{
  hide_other_errors_inv, ok_inv, split_run, bind_ok, bind_err, throw_if_err, throw_if_ok,
}
use ivis_backend.Store.Dao.{active_payment, clashes, insert_payment, find_payment_by_job}
use ivis_backend.Pricing.{assert_amount_matches_charge}
use ivis_backend.Payments.References.{References, CreatePaymentsDto, Resolved, resolve_references}
use ivis_backend.Payments.Service.{
  payment_number, new_payment, raises_job, link_new_job, reload_payment, draw_and_save, create_new,
  existing_payment, create_payment_body, create_payment,
}

abbrev pub FreshPayments : Db → Type 0
FreshPayments db = All (λ p. ltb p.id db.next_id ≡ true) db.payments

abbrev pub with_row : Payment → Db → Db
with_row p db = record db { payments = db.payments ++ p ∷ [] }

-- The generator has moved on.
abbrev pub drawn : Db → Db
drawn db = record db { next_id = suc db.next_id }

pub insert_payment_ok :
    (p : Payment) (db : Db)
    → any (clashes p) db.payments ≡ false
    → insert_payment p db ≡ (ok tt, with_row p db)
insert_payment_ok p db free =
    bind_ok (throw_if _ Error.database) (λ _. modify (with_row p)) (throw_if_ok Error.database free)

pub insert_payment_err :
    (p : Payment) (db : Db)
    → any (clashes p) db.payments ≡ true
    → insert_payment p db ≡ (err Error.database, db)
insert_payment_err p db taken =
    bind_err (throw_if _ Error.database) (λ _. modify (with_row p))
      (throw_if_err Error.database taken)

active_payment-fresh :
    (p : Payment) (db : Db)
    → FreshPayments db
    → p.id ≡ db.next_id
    → p.is_deleted ≡ false
    → active_payment p.id (with_row p (drawn db)) ≡ some p
active_payment-fresh p db fresh own kept =
    find-append_new (λ q. q.id == p.id && not q.is_deleted) db.payments p
      (find_fresh (λ q. q.id == p.id && not q.is_deleted) db.payments
        (All-map (λ q h. ground arith) db.payments fresh))
      (ground arith)

pub reload_payment_ok :
    (p : Payment) (db : Db) {q : Payment}
    → active_payment p.id db ≡ some q
    → reload_payment p db ≡ (ok q, db)
reload_payment_ok p db e =
    ap (λ f. elim f as (λ _. Action Payment) [ none ↦ pure p | some q ↦ pure q ] db) e

pub resolve_references_state :
    (r : References) (db db' : Db) {x : Resolved} → resolve_references r db ≡ (ok x, db') → db' ≡ db
unfolding resolve_references
resolve_references_state r db db' e = ground arith

assert_state :
    (fetch : Text → Option ℕ) (job : Option ℕ) (amount : ℕ) (db db' : Db) {u : Unit {0}}
    → assert_amount_matches_charge fetch job amount db ≡ (ok u, db')
    → db' ≡ db
unfolding assert_amount_matches_charge
assert_state fetch none amount db db' e = ground arith
assert_state fetch (some id) amount db db' e = ground arith

payment_number_state :
    (n : Option ℕ) (db db' : Db) {k : ℕ} → payment_number n db ≡ (ok k, db') → db' ≡ db
unfolding payment_number
payment_number_state none db db' e = ground arith
payment_number_state (some zero) db db' e = ground arith
payment_number_state (some (suc n)) db db' e = ground arith

-- The guards of a new payment passed, and the rest ran from the same state.
pub create_new_inv :
    (fetch : Text → Option ℕ) (now : ℕ) (dto : CreatePaymentsDto) (db db' : Db) {p : Payment}
    → create_new fetch now dto db ≡ (ok p, db')
    → (r : Resolved) × (number : ℕ) × (resolve_references dto.references db ≡ (ok r, db))
      × (assert_amount_matches_charge fetch dto.references.job_id dto.grand_total db ≡ (ok tt, db))
      × (payment_number dto.payments_id db ≡ (ok number, db))
      × (draw_and_save dto now r number db ≡ (ok p, db'))
create_new_inv fetch now dto db db' {p} e =
    let assert = assert_amount_matches_charge fetch dto.references.job_id dto.grand_total in
    split_run (resolve_references dto.references)
      (λ r. assert >> (payment_number dto.payments_id >>= draw_and_save dto now r)) e
      λ r d1 resolved rest.
        let same = resolve_references_state dto.references db d1 resolved in
        split_run assert (λ _. payment_number dto.payments_id >>= draw_and_save dto now r) rest
          λ _ d2 asserted rest'.
            let same' = assert_state fetch dto.references.job_id dto.grand_total d1 d2 asserted in
            split_run (payment_number dto.payments_id) (draw_and_save dto now r) rest'
              λ number d3 numbered saved.
                let same'' = payment_number_state dto.payments_id d2 d3 numbered in
                (
                  r,
                  number,
                  resolved ∙ ap (λ d. (ok r, d)) same,
                  ap assert (sym same) ∙ asserted ∙ ap (λ d. (ok tt, d)) (same' ∙ same),
                  ap (payment_number dto.payments_id) (sym (same' ∙ same))
                      ∙ numbered
                      ∙ ap (λ d. (ok number, d)) (same'' ∙ same' ∙ same),
                  ap (draw_and_save dto now r number) (sym (same'' ∙ same' ∙ same)) ∙ saved,
                )

-- Without a job to raise, one row is added, and only if it clashes with none.
pub draw_and_save_inv :
    (dto : CreatePaymentsDto) (now : ℕ) (r : Resolved) (number : ℕ) (db db' : Db) {p : Payment}
    → FreshPayments db
    → raises_job dto ≡ false
    → draw_and_save dto now r number db ≡ (ok p, db')
    → (p ≡ new_payment dto r now number db.next_id)
      × (db' ≡ with_row (new_payment dto r now number db.next_id) (drawn db))
draw_and_save_inv dto now r number db db' {p} fresh plain e =
    let new = new_payment dto r now number db.next_id in
    let choose : Bool → Action Payment = λ b. if b then link_new_job r new else pure new in
    let rest : Action Payment = choose (raises_job dto) >>= reload_payment in
    elim (Bool-cases (any (clashes new) db.payments)) [
      | inl taken ↦ absurd (
          let z =
            sym
              (bind_err (insert_payment new) (λ _. rest) (insert_payment_err new (drawn db) taken))
            ∙ e in
          cc)
      | inr free ↦ ok_inv (
          sym (
            bind_ok (insert_payment new) (λ _. rest) (insert_payment_ok new (drawn db) free)
            ∙ bind_ok (choose (raises_job dto)) reload_payment
                (ap (λ b. choose b (with_row new (drawn db))) plain)
            ∙ reload_payment_ok new (with_row new (drawn db))
                (active_payment-fresh new db fresh refl refl))
          ∙ e)
    ]

module _ (fetch : Text → Option ℕ) (now : ℕ) (dto : CreatePaymentsDto) (db : Db) where
  abbrev pub answer : Option Payment → Result Payment × Db
  answer f =
      elim f as (λ _. Action Payment) [ none ↦ create_new fetch now dto | some q ↦ pure q ] db

  pub create_payment_body-existing :
      {q : Payment}
      → existing_payment dto.references.job_id db ≡ some q
      → create_payment_body fetch now dto db ≡ (ok q, db)
  unfolding create_payment_body
  create_payment_body-existing e = ap answer e

  pub create_payment_body-new :
      existing_payment dto.references.job_id db ≡ none
      → create_payment_body fetch now dto db ≡ create_new fetch now dto db
  unfolding create_payment_body
  create_payment_body-new e = ap answer e

payment_by_job-fresh :
    (job : ℕ) (p : Payment) (db : Db)
    → p.job_id ≡ some job
    → p.is_deleted ≡ false
    → find_payment_by_job job db ≡ none
    → find_payment_by_job job (with_row p db) ≡ some p
payment_by_job-fresh job p db own kept none_yet =
    find-append_new (λ q. some_is q.job_id job && not q.is_deleted) db.payments p none_yet
      (ground arith)

-- If the next id is larger than the id of every payment, then after a payment for a job was created
-- (or an older one returned) by a request that raises no job, every later request for that job,
-- whatever else it posts, answers with that same payment and changes nothing.
pub create_payment-once :
    (fetch fetch' : Text → Option ℕ) (now now' job : ℕ) (dto dto' : CreatePaymentsDto) (db db' : Db)
    (p : Payment)
    → FreshPayments db
    → dto.references.job_id ≡ some job
    → dto'.references.job_id ≡ some job
    → raises_job dto ≡ false
    → create_payment fetch now dto db ≡ (ok p, db')
    → (find_payment_by_job job db' ≡ some p) × (create_payment fetch' now' dto' db' ≡ (ok p, db'))
unfolding create_payment
create_payment-once fetch fetch' now now' job dto dto' db db' p fresh own own' plain e =
    let body = hide_other_errors_inv _ e in
    let existing = ap (λ k. existing_payment k db) own in
    let recorded : find_payment_by_job job db' ≡ some p =
      elim (Option-cases (find_payment_by_job job db)) [
        | inl none_yet ↦
            let run = sym (create_payment_body-new fetch now dto db (existing ∙ none_yet)) ∙ body in
            let (r, number, _, _, _, saved) = create_new_inv fetch now dto db db' run in
            let (made, left) = draw_and_save_inv dto now r number db db' fresh plain saved in
            ap (find_payment_by_job job) left
            ∙ payment_by_job-fresh job (new_payment dto r now number db.next_id) (drawn db) own refl
                none_yet
            ∙ ap some (sym made)
        | inr (q, already) ↦
            let (made, left) =
              ok_inv
                (sym (create_payment_body-existing fetch now dto db (existing ∙ already)) ∙ body) in
            ap (find_payment_by_job job) left ∙ already ∙ ap some (sym made)
      ] in
    (
      recorded,
      ap hide_other_errors (
          create_payment_body-existing fetch' now' dto' db'
            (ap (λ k. existing_payment k db') own' ∙ recorded)),
    )
