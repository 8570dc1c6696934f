-- ===== src/Examples/Payments.antt =====
-- The theorems on payments, applied to the example centre.
use ivis_backend.Base.{ℕ, ◌≡◌, ◌≢◌, refl, Bool, true, false, Option, none, some, trim, to_lower}
use ivis_backend.Store.Entities.{Payment, Db}
use ivis_backend.Store.Action.{ok}
use ivis_backend.Store.Dao.{active_payment, find_by_vehicle_type, find_payment_by_job}
use ivis_backend.Pricing.{
  advance_of, is_allowed_amount, charge_for_job, resolve_pricing_for_job,
  assert_amount_matches_charge,
}
use ivis_backend.Pricing.Laws.{with_payment}
use ivis_backend.Jobs.Service.{create, create_body, validate_job_references}
use ivis_backend.Payments.References.{
  UpdatePaymentsDto, CreatePaymentsDto, Resolved, resolve_references,
}
use ivis_backend.Payments.Service.{
  create_payment, create_payment_body, payment_number, remove_payment, find_one_payment,
}
use ivis_backend.Payments.Create.{create_payment-once}
use ivis_backend.Payments.Refused.{create_payment-blocked}
use ivis_backend.Payments.Update.{update, update-keeps_job}
use ivis_backend.Payments.Relink.{create_payment-relinked}
use ivis_backend.Examples.Shop.{no_advance, walk_in, shop, payment_of}

-- A payment of 3 or 5 rials, for the job 10.
abbrev payment_request : ℕ → Option Bool → CreatePaymentsDto
payment_request total auto_create_job = record {
  references = record {
    job_id = some 10;
    appointment_id = none;
    customer_id = none;
    vehicle_record_id = none;
    anpr_capture_id = none;
    centre_id = none;
    line_id = none;
    admin_pc_id = none;
    camera_id = none;
  };
  payments_id = none;
  payment_type_id = none;
  grand_total = total;
  pay_date = none;
  auto_create_job = auto_create_job;
}

abbrev paid : Payment
paid = record (payment_of 50000 false) {
  id = 100;
  centre_id = some 6;
  line_id = some 7;
  pay_date = some 9000;
}

abbrev after_payment : Db
after_payment = (create_payment no_advance 9000 (payment_request 50000 (some false)) shop).1

paying :
    create_payment no_advance 9000 (payment_request 50000 (some false)) shop
    ≡ (ok paid, after_payment)
unfolding create_payment create_payment_body resolve_references payment_number
    assert_amount_matches_charge resolve_pricing_for_job charge_for_job to_lower trim
    find_by_vehicle_type advance_of is_allowed_amount
paying = refl

create_payment-once_example :
    (find_payment_by_job 10 after_payment ≡ some paid)
    × (create_payment no_advance 9500 (payment_request 30000 none) after_payment
        ≡ (ok paid, after_payment))
create_payment-once_example =
    create_payment-once no_advance no_advance 9000 9500 10 (payment_request 50000 (some false))
      (payment_request 30000 none) shop after_payment paid tt refl refl refl paying

-- The shop after the payment of the job was removed.
abbrev refunded : Db
refunded = (remove_payment 30 (with_payment (payment_of 50000 false) shop)).1

removal : refunded ≡ with_payment (payment_of 50000 true) shop
unfolding remove_payment find_one_payment
removal = refl

create_payment-blocked_example :
    create_payment no_advance 9000 (payment_request 50000 none) refunded ≢ (ok paid, after_payment)
unfolding remove_payment find_one_payment
create_payment-blocked_example =
    create_payment-blocked no_advance 9000 10 (payment_request 50000 none) refunded after_payment
      paid (refl, tt) refl refl refl

abbrev resolved : Resolved
resolved = record {
  appointment_id = none;
  customer_id = 1;
  vehicle_record_id = 2;
  anpr_capture_id = none;
  centre_id = some 6;
  line_id = some 7;
  admin_pc_id = none;
  camera_id = none;
}

abbrev after_relink : Db
after_relink = (create_payment no_advance 9000 (payment_request 50000 none) shop).1

abbrev relinked : Payment
relinked = record paid { job_id = some 101 }

relinking :
    create_payment no_advance 9000 (payment_request 50000 none) shop ≡ (ok relinked, after_relink)
unfolding create_payment create_payment_body resolve_references payment_number
    assert_amount_matches_charge resolve_pricing_for_job charge_for_job to_lower trim
    find_by_vehicle_type advance_of is_allowed_amount create create_body validate_job_references
relinking = refl

create_payment-relinked_example :
    (relinked.job_id ≢ some 10)
    × (relinked.job_id ≢ none)
    × (find_payment_by_job 10 after_relink ≡ none)
create_payment-relinked_example =
    create_payment-relinked no_advance 9000 10 (payment_request 50000 none) shop after_relink
      walk_in relinked tt (refl, tt) refl refl refl refl relinking

abbrev amendment : UpdatePaymentsDto
amendment = record {
  references = record (payment_request 0 none).references { job_id = none };
  payment_type_id = none;
  grand_total = some 60000;
  pay_date = none;
  auto_create_job = none;
}

abbrev paid_shop : Db
paid_shop = with_payment (payment_of 50000 false) shop

abbrev amended : Payment
amended = record (payment_of 60000 false) { pay_date = some 9900 }

abbrev after_amendment : Db
after_amendment = (update 30 amendment 9900 paid_shop).1

amending : update 30 amendment 9900 paid_shop ≡ (ok amended, after_amendment)
unfolding update find_one_payment resolve_references
amending = refl

update-keeps_job_example :
    (amended.job_id ≡ some 10)
    × (amended.payment_id ≡ 1)
    × (amended.customer_id ≡ (payment_of 50000 false).customer_id)
    × (amended.vehicle_record_id ≡ (payment_of 50000 false).vehicle_record_id)
    × (active_payment 30 after_amendment ≡ some amended)
    × (after_amendment.jobs ≡ shop.jobs)
update-keeps_job_example =
    update-keeps_job 30 9900 amendment paid_shop after_amendment (payment_of 50000 false) amended
      refl refl amending
