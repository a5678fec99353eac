-- ===== src/Billing/Tests/Calls.antt =====
-- Service calls on the sample database.
use fireisp.Prelude.{◌≡◌, refl, arith, true, false, none, some}
use fireisp.Prelude.Int.{pos, sub_ℕ, ◌-ℤ◌, leb_ℤ, is_positive, min_ℤ}
use fireisp.Prelude.Sort.{order_by}
use fireisp.Prelude.Text.{codes, text_eq, show_ℕ}
use fireisp.Calendar.{date_eq, date_ltb}
use fireisp.Store.{
  active, Payment, CashClosure, SuspensionApplication, M, ok, err, nothing_to_close,
}
use fireisp.Core.{audit, publish, actor_lock, get_customer, get_subscription, save_subscription}
use fireisp.Operations.{has_billing_dispute_hold}
use fireisp.Billing.Money.{finite, money}
use fireisp.Billing.Balances.{
  is_reversed, allocated, paid_amount, credited, refunds_invoice, refunded, balance, available,
}
use fireisp.Billing.Allocate.{
  start_ltb, start_eq, invoice_leb, payment_leb, open_invoices, usable_payments, pay, pay_invoice,
  set_status, settle, settle_all, allocate,
}
use fireisp.Billing.Account.{affected, refresh_subscription, refresh_all, allocate_customer}
use fireisp.Billing.Payments.{read_method, record_payment, book_payment, receive_payment}
use fireisp.Billing.Cash.{
  read_count, is_closed, pending_payments, reverses_cash, pending_reversals, pending_refunds,
  sum_of, amount_reversed, movements, expected_cash, closure_items, close_cash,
}
use fireisp.Billing.Cash.Laws.{close_cash_again}
use fireisp.Billing.Suspension.{
  in_grace, health_code, is_network_confirmed, suspension_block, get_policy, application_block,
  record_application, apply_suspension,
}
use fireisp.Billing.Suspension.Apply.{Justified, apply_suspension-Justified}
use fireisp.Billing.Allocate.Laws.{received}
use fireisp.Billing.Invariant.{Consistent}
use fireisp.Billing.Invariant.Reach.{receive, here, next, Reach-Consistent}
use fireisp.Billing.Tests.Samples.{env, payment, proposal, start, value_of, db_of}

abbrev charge : M Payment
charge =
    receive_payment env 7 (finite false 20000 2) (codes "cash") (some 1) (codes "second")
      (codes "r") none

-- 200 pesos are received, and pay the rest of January and a part of February.
charge_runs : charge start ≡ ok (value_of (payment 0 0) (charge start), db_of start (charge start))
unfolding receive_payment money read_method book_payment actor_lock get_customer record_payment
    allocate_customer allocate open_invoices usable_payments order_by invoice_leb payment_leb
    start_ltb start_eq date_ltb date_eq is_reversed settle_all settle pay_invoice pay balance
    available paid_amount credited refunded allocated refunds_invoice set_status affected
    refresh_all refresh_subscription audit sub_ℕ ◌-ℤ◌ leb_ℤ is_positive min_ℤ
charge_runs = refl

start-Consistent : Consistent start
unfolding allocated received
start-Consistent = record {
  sound = record { distinct = omega arith; funded = λ k. ground arith; positive = omega arith };
  issued = omega arith;
}

Reach-Consistent_example : Consistent (db_of start (charge start))
Reach-Consistent_example = Reach-Consistent start-Consistent (
    next env here (
      receive 7 (finite false 20000 2) (codes "cash") (some 1) (codes "second") (codes "r") none
        charge_runs))

abbrev closure : CashClosure
closure = record {
  pk = 0;
  cashier = 0;
  closed_at = 0;
  expected = pos 0;
  counted = 0;
  difference = pos 0;
}

abbrev till : M CashClosure
till = close_cash env 1 (finite false 39900 2)

-- 400 pesos were taken, and 399 are counted.
till_runs : till start ≡ ok (value_of closure (till start), db_of start (till start))
unfolding close_cash actor_lock read_count movements pending_payments pending_reversals
    pending_refunds is_closed expected_cash sum_of reverses_cash amount_reversed closure_items audit
    sub_ℕ ◌-ℤ◌
till_runs = refl

count_reads : read_count (finite false 0 0) ≡ ok 0
unfolding read_count
count_reads = refl

close_cash_again_example :
    close_cash env 1 (finite false 0 0) (db_of start (till start)) ≡ err nothing_to_close
close_cash_again_example =
    close_cash_again env env 1 (finite false 39900 2) (finite false 0 0) 0
      (value_of closure (till start)) start (db_of start (till start)) till_runs count_reads

abbrev application : SuspensionApplication
application = record {
  pk = 0;
  proposal = 0;
  applied = false;
  previous_status = active;
  resulting_status = active;
  detail = none;
  created_by = none;
  created_at = 0;
}

abbrev suspend : M SuspensionApplication
suspend = apply_suspension env proposal none

suspend_runs :
    suspend start ≡ ok (value_of application (suspend start), db_of start (suspend start))
unfolding apply_suspension get_subscription get_customer get_policy application_block
    suspension_block in_grace has_billing_dispute_hold is_network_confirmed health_code text_eq
    record_application save_subscription audit publish show_ℕ
suspend_runs = refl

suspend_applies : (value_of application (suspend start)).applied ≡ true
unfolding apply_suspension get_subscription get_customer get_policy application_block
    suspension_block in_grace has_billing_dispute_hold is_network_confirmed health_code text_eq
    record_application save_subscription audit publish show_ℕ
suspend_applies = refl

apply_suspension-Justified_example : Justified env none start proposal
apply_suspension-Justified_example =
    apply_suspension-Justified env none proposal proposal (value_of application (suspend start))
      start (db_of start (suspend start)) refl refl suspend_runs suspend_applies
