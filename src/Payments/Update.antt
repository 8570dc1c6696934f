-- ===== src/Payments/Update.antt =====
-- `update` of transactions/payments/services/payments.service.ts. It has no `catch`: every exception
-- goes to the caller as it is.
use ivis_backend.Base.{
  ℕ, ◌==◌, ltb, Bool, true, false, ◌&&◌, not, Option, none, some, ◌≡◌, refl, sym, ap, ◌∙◌, or_else,
  is_some, if◌then◌else◌, find_passes, update_first, find-update_first_const, arith,
}
use ivis_backend.Store.Entities.{Payment, Db}
use ivis_backend.Store.Action.{Action, ok, pure, or_throw, ◌>>=◌, ◌>>◌}
use ivis_backend.Store.Runs.{split_run, ok_inv, or_throw_inv}
use ivis_backend.Store.Dao.{active_payment, update_payment}
use ivis_backend.Payments.References.{References, UpdatePaymentsDto, Resolved, resolve_references}
use ivis_backend.Payments.Service.{find_one_payment, link_new_job, is_not_false, reload_payment}
use ivis_backend.Payments.Create.{resolve_references_state, reload_payment_ok}
use ivis_backend.Payments.Relink.{update_payment_inv}

-- The posted references, completed from the payment for its owner and its appointment.
abbrev pub posted_or_own : References → Payment → References
posted_or_own r p = record r {
  customer_id = or_else r.customer_id (some p.customer_id);
  vehicle_record_id = or_else r.vehicle_record_id (some p.vehicle_record_id);
  appointment_id = or_else r.appointment_id p.appointment_id;
}

abbrev pub next_grand_total : UpdatePaymentsDto → Payment → ℕ
next_grand_total dto p = elim dto.grand_total [ none ↦ p.grand_total | some total ↦ total ]

-- The last of the two spreads wins: a payment that had no date gets the present one.
abbrev pub next_pay_date : UpdatePaymentsDto → Payment → ℕ → Option ℕ
next_pay_date dto p now =
    if ltb 0 (next_grand_total dto p) && not (is_some p.pay_date)
    then some now
    else or_else dto.pay_date p.pay_date

-- `merge` skips what is undefined. This is the entity in memory.
abbrev pub merged : UpdatePaymentsDto → Payment → Resolved → ℕ → Payment
merged dto p r now = record p {
  payment_type_id = or_else dto.payment_type_id p.payment_type_id;
  job_id = or_else dto.references.job_id p.job_id;
  customer_id = r.customer_id;
  vehicle_record_id = r.vehicle_record_id;
  appointment_id = or_else r.appointment_id p.appointment_id;
  anpr_capture_id = or_else r.anpr_capture_id p.anpr_capture_id;
  centre_id = or_else r.centre_id p.centre_id;
  line_id = or_else r.line_id p.line_id;
  camera_id = or_else r.camera_id p.camera_id;
  grand_total = next_grand_total dto p;
  pay_date = next_pay_date dto p now;
}

-- The row that `save` writes. The entity was loaded with its relations, and TypeORM takes the key of a
-- relation that is loaded from the relation, whatever the column was set to: a reference that the payment
-- has stays, and only a missing one is filled.
abbrev pub stored_payment : Payment → Payment → Payment
stored_payment p m = record m {
  payment_type_id = or_else p.payment_type_id m.payment_type_id;
  job_id = or_else p.job_id m.job_id;
  customer_id = p.customer_id;
  vehicle_record_id = p.vehicle_record_id;
  appointment_id = or_else p.appointment_id m.appointment_id;
  anpr_capture_id = or_else p.anpr_capture_id m.anpr_capture_id;
  centre_id = or_else p.centre_id m.centre_id;
  line_id = or_else p.line_id m.line_id;
  camera_id = or_else p.camera_id m.camera_id;
}

-- What the job of an updated payment is made from: the entity, and the admin PC that was resolved.
abbrev pub of_saved : Payment → Resolved → Resolved
of_saved p r = record {
  appointment_id = p.appointment_id;
  customer_id = p.customer_id;
  vehicle_record_id = p.vehicle_record_id;
  anpr_capture_id = p.anpr_capture_id;
  centre_id = p.centre_id;
  line_id = p.line_id;
  admin_pc_id = r.admin_pc_id;
  camera_id = p.camera_id;
}

abbrev pub needs_job : UpdatePaymentsDto → Payment → Bool
needs_job dto p =
    ltb 0 p.grand_total && (not (is_some p.job_id) && is_not_false dto.auto_create_job)

-- `m` is the entity and `row` what is stored of it.
abbrev pub save_merged : UpdatePaymentsDto → Resolved → Payment → Payment → Action Payment
save_merged dto r m row = do
  update_payment row
  saved ← (if needs_job dto m then link_new_job (of_saved m r) row else pure row)
  reload_payment saved

abbrev pub update_found : UpdatePaymentsDto → ℕ → Payment → Action Payment
update_found dto now p = do
  r ← resolve_references (posted_or_own dto.references p)
  save_merged dto r (merged dto p r now) (stored_payment p (merged dto p r now))

unfoldable pub update : ℕ → UpdatePaymentsDto → ℕ → Action Payment
update id dto now = do p ← find_one_payment id; update_found dto now p

save_merged_inv :
    (dto : UpdatePaymentsDto) (r : Resolved) (m p : Payment) (db db' : Db) {old q : Payment}
    → active_payment p.id db ≡ some old
    → p.is_deleted ≡ false
    → is_some m.job_id ≡ true
    → save_merged dto r m p db ≡ (ok q, db')
    → (q ≡ p)
      × (db' ≡ record db { payments = update_first (λ x. x.id == p.id) (λ _. p) db.payments })
save_merged_inv dto r m p db db' {old} {q} there kept has e =
    let choose : Bool → Action Payment = λ b. if b then link_new_job (of_saved m r) p else pure p in
    split_run (update_payment p) (λ _. choose (needs_job dto m) >>= reload_payment) e
      λ _ mid saved rest.
        let written = update_payment_inv p db mid saved in
        split_run (choose (needs_job dto m)) reload_payment rest λ s last chosen reloaded.
          let plain : needs_job dto m ≡ false = ground arith in
          let (same, state) = ok_inv (ap (λ b. choose b mid) (sym plain) ∙ chosen) in
          let found : active_payment p.id mid ≡ some p =
            ap (active_payment p.id) written
            ∙ find-update_first_const (λ x. x.id == p.id && not x.is_deleted) (λ x. x.id == p.id) p
                (λ x h. ground arith) (ground arith) db.payments there in
          let run = ap (λ x. reload_payment x last) (sym same) ∙ reloaded in
          let (made, end) =
            ok_inv
              (sym (reload_payment_ok p last (ap (active_payment p.id) state ∙ found)) ∙ run) in
          (made, end ∙ state ∙ written)

own_first : (own posted : Option ℕ) → or_else own (or_else posted own) ≡ or_else own posted
own_first (some id) posted = refl
own_first none (some id) = refl
own_first none none = refl

active_payment_lem :
    (id : ℕ) (db : Db) {p : Payment}
    → active_payment id db ≡ some p
    → (p.id ≡ id) × (p.is_deleted ≡ false)
active_payment_lem id db e =
    let passes = find_passes (λ q. q.id == id && not q.is_deleted) db.payments e in
    (ground arith, ground arith)

update_found_inv :
    (dto : UpdatePaymentsDto) (now : ℕ) (p : Payment) (db db' : Db) {q : Payment}
    → active_payment p.id db ≡ some p
    → p.is_deleted ≡ false
    → is_some (or_else dto.references.job_id p.job_id) ≡ true
    → update_found dto now p db ≡ (ok q, db')
    → (r : Resolved) × (q ≡ stored_payment p (merged dto p r now))
      × (db' ≡ record db { payments = update_first (λ x. x.id == p.id) (λ _. q) db.payments })
update_found_inv dto now p db db' {q} there kept has e =
    split_run (resolve_references (posted_or_own dto.references p))
      (λ r. save_merged dto r (merged dto p r now) (stored_payment p (merged dto p r now))) e
      λ r mid resolved rest.
        let same = resolve_references_state (posted_or_own dto.references p) db mid resolved in
        let (made, written) =
          save_merged_inv dto r (merged dto p r now) (stored_payment p (merged dto p r now)) db db'
            there kept has
            (ap (save_merged dto r (merged dto p r now) (stored_payment p (merged dto p r now)))
                (sym same)
              ∙ rest) in
        (
          r,
          made,
          written
              ∙ ap
                  (λ y. record db {
                    payments = update_first (λ x. x.id == p.id) (λ _. y) db.payments;
                  })
                  (sym made),
        )

-- An update of an active payment that belongs to a job, or for which a job is posted, raises no job
-- when it succeeds: the answer is the stored payment under the same number, with its own job, or the
-- posted one if it had none; its customer and its vehicle record are those from before, whatever is
-- posted; and the jobs are the jobs from before.
pub update-keeps_job :
    (id now : ℕ) (dto : UpdatePaymentsDto) (db db' : Db) (p q : Payment)
    → active_payment id db ≡ some p
    → is_some (or_else dto.references.job_id p.job_id) ≡ true
    → update id dto now db ≡ (ok q, db')
    → (q.job_id ≡ or_else p.job_id dto.references.job_id)
      × (q.payment_id ≡ p.payment_id)
      × (q.customer_id ≡ p.customer_id)
      × (q.vehicle_record_id ≡ p.vehicle_record_id)
      × (active_payment id db' ≡ some q)
      × (db'.jobs ≡ db.jobs)
unfolding update find_one_payment
update-keeps_job id now dto db db' p q found has e =
    split_run (or_throw (active_payment id db) _) (update_found dto now) e λ p' d0 read rest.
      let (same, state) = or_throw_inv (active_payment id db) _ read in
      let known : p' ≡ p = cc in
      let run : update_found dto now p db ≡ (ok q, db') =
        ap (λ x. update_found dto now x db) (sym known)
        ∙ ap (update_found dto now p') (sym state)
        ∙ rest in
      let (own, kept) = active_payment_lem id db found in
      let (r, made, written) =
        update_found_inv dto now p db db' (ap (λ k. active_payment k db) own ∙ found) kept has
          run in
      let same_id : q.id ≡ p.id = ap (λ x. x.id) made in
      let still : q.is_deleted ≡ false = ap (λ x. x.is_deleted) made ∙ kept in
      (
        ap (λ x. x.job_id) made ∙ own_first p.job_id dto.references.job_id,
        ap (λ x. x.payment_id) made,
        ap (λ x. x.customer_id) made,
        ap (λ x. x.vehicle_record_id) made,
        ap (active_payment id) written
            ∙ find-update_first_const (λ x. x.id == id && not x.is_deleted) (λ x. x.id == p.id) q
                (λ x h. ground arith) (ground arith) db.payments found,
        ap (λ d. d.jobs) written,
      )
