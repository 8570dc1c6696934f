-- ===== src/Payments/Refused.antt =====
-- Payments that are refused.
use ivis_backend.Base.{
  ℕ, ◌*◌, true, false, ◌&&◌, Option, none, some, Text, some_is, ◌≡◌, ◌≢◌, sym, ap, ◌∙◌, any,
  any-mono_All, arith, if◌then◌else◌,
}
use ivis_backend.Store.Entities.{Job, Payment, Db}
use ivis_backend.Store.Action.{Error, Reason, ok, err, ◌>>=◌, ◌>>◌, hide_other_errors, pure}
use ivis_backend.Store.Runs.{hide_other_errors_inv, bind_ok, bind_err}
use ivis_backend.Store.Dao.{active_job, clashes, insert_payment, find_payment_by_job}
use ivis_backend.Pricing.{assert_amount_matches_charge, resolve_pricing_for_job}
use ivis_backend.Pricing.Amounts.{assert_amount_iff}
use ivis_backend.Payments.References.{CreatePaymentsDto, Resolved, resolve_references}
use ivis_backend.Payments.Service.{
  payment_number, new_payment, raises_job, link_new_job, reload_payment, draw_and_save,
  existing_payment, create_payment,
}
use ivis_backend.Payments.Create.{
  FreshPayments, drawn, insert_payment_err, create_new_inv, create_payment_body-new,
}

draw_and_save_taken :
    (dto : CreatePaymentsDto) (now : ℕ) (r : Resolved) (number : ℕ) (db : Db)
    → any (clashes (new_payment dto r now number db.next_id)) db.payments ≡ true
    → draw_and_save dto now r number db ≡ (err Error.database, drawn db)
draw_and_save_taken dto now r number db taken =
    let new = new_payment dto r now number db.next_id in
    bind_err (insert_payment new)
      (λ _. (if raises_job dto then link_new_job r new else pure new) >>= reload_payment)
      (insert_payment_err new (drawn db) taken)

-- If the next id is larger than the id of every payment, then for a job that has a deleted payment
-- and no other, no request can record a payment: none is answered with a payment.
pub create_payment-blocked :
    (fetch : Text → Option ℕ) (now job : ℕ) (dto : CreatePaymentsDto) (db db' : Db) (p : Payment)
    → FreshPayments db
    → dto.references.job_id ≡ some job
    → find_payment_by_job job db ≡ none
    → any (λ q. some_is q.job_id job && q.is_deleted) db.payments ≡ true
    → create_payment fetch now dto db ≢ (ok p, db')
unfolding create_payment
create_payment-blocked fetch now job dto db db' p fresh own none_yet removed e =
    let body = hide_other_errors_inv _ e in
    let run =
      sym
        (create_payment_body-new fetch now dto db (ap (λ k. existing_payment k db) own ∙ none_yet))
      ∙ body in
    let (r, number, _, _, _, saved) = create_new_inv fetch now dto db db' run in
    let taken =
      any-mono_All (λ q. some_is q.job_id job && q.is_deleted)
        (clashes (new_payment dto r now number db.next_id)) (λ q young same. ground arith)
        db.payments fresh removed in
    let z = sym (draw_and_save_taken dto now r number db taken) ∙ saved in cc

-- For a job that can be priced and has no payment, in whole thousandths of a rial, a request whose
-- references resolve and whose amount is none of 0, the payable and the grand total is answered as a
-- failure of the database, not as a mismatch of the amount, and changes nothing.
pub create_payment-mismatch :
    (fetch : Text → Option ℕ) (now job : ℕ) (dto : CreatePaymentsDto) (db : Db) (j : Job)
    (r : Resolved) (posted payable total : ℕ)
    → dto.references.job_id ≡ some job
    → dto.grand_total ≡ 10 * posted
    → find_payment_by_job job db ≡ none
    → resolve_references dto.references db ≡ (ok r, db)
    → active_job job db ≡ some j
    → (resolve_pricing_for_job fetch j db).charge_missing ≡ false
    → (resolve_pricing_for_job fetch j db).payable ≡ 10 * payable
    → (resolve_pricing_for_job fetch j db).grand_total ≡ 10 * total
    → posted ≢ 0
    → posted ≢ payable
    → posted ≢ total
    → create_payment fetch now dto db ≡ (err Error.database, db)
unfolding create_payment
create_payment-mismatch fetch now job dto db j r posted payable total own amount none_yet resolved
      active priced p t a b c =
    let assert = assert_amount_matches_charge fetch dto.references.job_id dto.grand_total in
    let rest = λ (r : Resolved). payment_number dto.payments_id >>= draw_and_save dto now r in
    let refused : assert db ≡ (err (Error.bad_request Reason.amount_mismatch), db) =
      ap (λ k. assert_amount_matches_charge fetch k dto.grand_total db) own
      ∙ ap (λ n. assert_amount_matches_charge fetch (some job) n db) amount
      ∙ (assert_amount_iff fetch job db j posted payable total active priced p t).1 a b c in
    ap hide_other_errors (
      create_payment_body-new fetch now dto db (ap (λ k. existing_payment k db) own ∙ none_yet)
      ∙ bind_ok (resolve_references dto.references) (λ r. assert >> rest r) resolved
      ∙ bind_err assert (λ _. rest r) refused)
