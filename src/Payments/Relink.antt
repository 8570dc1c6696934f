-- ===== src/Payments/Relink.antt =====
-- A payment for a job that raises another job.
use ivis_backend.Base.{
  ℕ, suc, ◌==◌, ltb, Bool, true, false, ◌&&◌, not, Option, none, some, ◌∷◌, [], ◌++◌, Text, some_is,
  ◌≡◌, ◌≢◌, refl, sym, ap, ◌∙◌, any, All-map, All-find, arith, find, find_fresh, if◌then◌else◌,
  Bool-cases, inl, inr, find-append_new, find-update_first_const, find-update_first_last,
  update_first, find_passes,
}
use ivis_backend.Store.Entities.{Job, Payment, Db}
use ivis_backend.Store.Action.{Action, ok, ◌>>=◌, ◌>>◌, pure}
use ivis_backend.Store.Runs.{hide_other_errors_inv, bind_ok, bind_err, split_run, ok_inv}
use ivis_backend.Store.Dao.{
  active_job, active_payment, clashes, insert_payment, update_payment, find_payment_by_job,
}
use ivis_backend.Jobs.Service.{create}
use ivis_backend.Jobs.Create.{FreshJobs, create_inv}
use ivis_backend.Payments.References.{CreatePaymentsDto, Resolved}
use ivis_backend.Payments.Service.{
  new_payment, raises_job, link_new_job, reload_payment, draw_and_save, existing_payment,
  create_payment, job_of_payment,
}
use ivis_backend.Payments.Create.{
  FreshPayments, drawn, with_row, insert_payment_ok, insert_payment_err, create_new_inv,
  create_payment_body-new, reload_payment_ok,
}

pub update_payment_inv :
    (p : Payment) (db db' : Db) {u : Unit {0}}
    → update_payment p db ≡ (ok u, db')
    → db' ≡ record db { payments = update_first (λ q. q.id == p.id) (λ _. p) db.payments }
update_payment_inv p db db' e = ground arith

-- Linking a payment to a new job gives it that job's id, which is fresh.
link_new_job_inv :
    (r : Resolved) (p : Payment) (db db' : Db) {q : Payment}
    → FreshJobs db
    → link_new_job r p db ≡ (ok q, db')
    → (q ≡ record p { job_id = some db.next_id })
      × (db'.payments ≡ update_first (λ x. x.id == p.id) (λ _. q) db.payments)
link_new_job_inv r p db db' {q} fresh e =
    let linked = λ (job : Job). record p { job_id = some job.id } in
    split_run (create (job_of_payment r)) (λ job. update_payment (linked job) >> pure (linked job))
      e
      λ job mid created rest.
        let (number, _, _, _, made, left) = create_inv (job_of_payment r) db mid fresh created in
        split_run (update_payment (linked job)) (λ _. pure (linked job)) rest
          λ _ last updated done.
            let (same, end) = ok_inv done in
            let written = update_payment_inv (linked job) mid last updated in
            (
              same ∙ ap linked made,
              ap (λ d. d.payments) (end ∙ written)
                  ∙ ap (λ d. update_first (λ x. x.id == p.id) (λ _. linked job) d.payments) left
                  ∙ ap (λ y. update_first (λ x. x.id == p.id) (λ _. y) db.payments) (sym same),
            )

active_payment-linked :
    (new q : Payment) (db mid : Db)
    → FreshPayments db
    → new.id ≡ db.next_id
    → new.is_deleted ≡ false
    → q ≡ record new { job_id = some (suc db.next_id) }
    → mid.payments ≡ update_first (λ x. x.id == new.id) (λ _. q) (db.payments ++ new ∷ [])
    → active_payment q.id mid ≡ some q
active_payment-linked new q db mid young own kept made rows =
    let id : q.id ≡ new.id = ap (λ x. x.id) made in
    let alive : q.is_deleted ≡ false = ap (λ x. x.is_deleted) made ∙ kept in
    let before =
      find-append_new (λ x. x.id == q.id && not x.is_deleted) db.payments new
        (find_fresh (λ x. x.id == q.id && not x.is_deleted) db.payments
          (All-map (λ x h. ground arith) db.payments young))
        (ground arith) in
    ap (find (λ x. x.id == q.id && not x.is_deleted)) rows
    ∙ find-update_first_const (λ x. x.id == q.id && not x.is_deleted) (λ x. x.id == new.id) q
        (λ x h. ground arith) (ground arith) (db.payments ++ new ∷ []) before

draw_and_link_inv :
    (dto : CreatePaymentsDto) (now : ℕ) (r : Resolved) (number : ℕ) (db db' : Db) {p : Payment}
    → FreshPayments db
    → FreshJobs db
    → raises_job dto ≡ true
    → draw_and_save dto now r number db ≡ (ok p, db')
    → let new = new_payment dto r now number db.next_id in
      (p ≡ record new { job_id = some (suc db.next_id) })
      × (db'.payments ≡ update_first (λ x. x.id == db.next_id) (λ _. p) (db.payments ++ new ∷ []))
draw_and_link_inv dto now r number db db' {p} young fresh raised e =
    let new = new_payment dto r now number db.next_id in
    let choose : Bool → Action Payment = λ b. if b then link_new_job r new else pure new in
    let rest : Action Payment = choose (raises_job dto) >>= reload_payment in
    elim (Bool-cases (any (clashes new) db.payments)) [
      | inl taken ↦ absurd (
          let z =
            sym
              (bind_err (insert_payment new) (λ _. rest) (insert_payment_err new (drawn db) taken))
            ∙ e in
          cc)
      | inr free ↦
          let run : rest (with_row new (drawn db)) ≡ (ok p, db') =
            sym (bind_ok (insert_payment new) (λ _. rest) (insert_payment_ok new (drawn db) free))
            ∙ e in
          split_run (choose (raises_job dto)) reload_payment run λ q mid linked reloaded.
            let (made, rows) =
              link_new_job_inv r new (with_row new (drawn db)) mid
                (All-map (λ x h. ground arith) db.jobs fresh)
                (ap (λ b. choose b (with_row new (drawn db))) (sym raised) ∙ linked) in
            let found = active_payment-linked new q db mid young refl refl made rows in
            let (same, end) = ok_inv (sym (reload_payment_ok q mid found) ∙ reloaded) in
            (
              same ∙ made,
              ap (λ d. d.payments) end
                  ∙ rows
                  ∙ ap
                      (λ y.
                        update_first (λ x. x.id == db.next_id) (λ _. y) (db.payments ++ new ∷ []))
                      (sym same),
            )
    ]

-- If the next id is larger than the id of every job and every payment, then a request with an amount
-- for an active job that has no payment, unless it posts `auto_create_job` as false, raises a second
-- job when it succeeds: the payment that it answers with is linked to the new job, not to the one it
-- was posted for, which afterwards still has no payment.
pub create_payment-relinked :
    (fetch : Text → Option ℕ) (now job : ℕ) (dto : CreatePaymentsDto) (db db' : Db) (j : Job)
    (p : Payment)
    → FreshPayments db
    → FreshJobs db
    → active_job job db ≡ some j
    → dto.references.job_id ≡ some job
    → find_payment_by_job job db ≡ none
    → raises_job dto ≡ true
    → create_payment fetch now dto db ≡ (ok p, db')
    → (p.job_id ≢ some job) × (p.job_id ≢ none) × (find_payment_by_job job db' ≡ none)
unfolding create_payment
create_payment-relinked fetch now job dto db db' j p young fresh active own none_yet raised e =
    let body = hide_other_errors_inv _ e in
    let run =
      sym
        (create_payment_body-new fetch now dto db (ap (λ k. existing_payment k db) own ∙ none_yet))
      ∙ body in
    let (r, number, _, _, _, saved) = create_new_inv fetch now dto db db' run in
    let new = new_payment dto r now number db.next_id in
    let (made, rows) = draw_and_link_inv dto now r number db db' young fresh raised saved in
    let linked : p.job_id ≡ some (suc db.next_id) = ap (λ q. q.job_id) made in
    let passes = find_passes (λ q. q.id == job && not q.is_deleted) db.jobs active in
    let older =
      All-find (λ x. ltb x.id db.next_id ≡ true) (λ q. q.id == job && not q.is_deleted) db.jobs
        fresh active in
    let other : (some_is p.job_id job && not p.is_deleted) ≡ false = ground arith in
    (
      λ same. ground arith,
      λ same. cc,
      ap (find (λ q. some_is q.job_id job && not q.is_deleted)) rows
          ∙ find-update_first_last (λ q. some_is q.job_id job && not q.is_deleted)
              (λ q. q.id == db.next_id) p new other (ground arith) db.payments
              (All-map (λ q h. ground arith) db.payments young) none_yet,
    )
