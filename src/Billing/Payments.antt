-- ===== src/Billing/Payments.antt =====
-- `receive_payment` and `reverse_payment` of billing/services.py.
pub mod Laws
use fireisp.Prelude.{
  ℕ, Bool, true, false, not, ◌&&◌, ◌||◌, Option, none, some, List, [], ◌∷◌, ltb, ◌==◌,
  if◌then◌else◌, find, any, select, length,
}
use fireisp.Prelude.Text.{Text, codes, text_eq, strip, is_empty}
use fireisp.Store.{
  Method, cash, transfer, card, Invoice, opened, Payment, Allocation, PaymentReversal, Ledger, M,
  ◌>>=◌, maybe, ◌>>◌, done, pure, raise, gets, modify, lift, fresh, raise_if, or_raise, with_ledger,
  does_not_exist, bad_method, key_reused, no_reason, refunded_charge, Env,
}
use fireisp.Core.{audit, actor_lock, get_customer}
use fireisp.Billing.Money.{DecimalInput, money}
use fireisp.Billing.Balances.{refunds_invoice}
use fireisp.Billing.Allocate.{set_status}
use fireisp.Billing.Account.{is_void, same_key, refresh_all, allocate_customer}

-- `method not in dict(Payment.METHODS)`
unfoldable pub read_method : Text → Option Method
unfolding text_eq
read_method t =
    if text_eq t (codes "cash")
    then some cash
    else if text_eq t (codes "transfer")
    then some transfer
    else if text_eq t (codes "card")
    then some card
    else none

abbrev pub method_eq : Method → Method → Bool
method_eq cash cash = true
method_eq transfer transfer = true
method_eq card card = true
method_eq _ _ = false

-- `not idempotency_key or len(idempotency_key)>100`
abbrev pub is_bad_key : Text → Bool
is_bad_key key = is_empty key || ltb 100 (length key)

abbrev pub value_or : Option ℕ → ℕ → ℕ
value_or none d = d
value_or (some t) d = t

-- The same operation again: customer, amount, method and reference agree.
unfoldable pub same_payment : Payment → ℕ → ℕ → Method → Text → Bool
same_payment p customer amount method reference =
    p.customer == customer
    && p.amount == amount
    && method_eq p.method method
    && text_eq p.reference reference

-- The writes of `receive_payment`, where the key is new.
unfoldable pub record_payment : Env → Payment → Option ℕ → M Payment
record_payment env p actor = do
  modify (with_ledger λ l. record l { payments = p ∷ l.payments })
  allocate_customer env p.customer
  audit env actor (codes "billing.payment.received") p.pk
  pure p

-- The row that `Payment.objects.create` writes.
abbrev pub new_payment : Env → ℕ → ℕ → ℕ → Method → Option ℕ → Text → Text → Option ℕ → Payment
new_payment env pk customer amount method actor key reference paid_at = record {
  pk = pk;
  customer = customer;
  amount = amount;
  method = method;
  reference = reference;
  paid_at = value_or paid_at env.now;
  created_at = env.now;
  created_by = actor;
  idempotency_key = key;
}

-- The part of `receive_payment` from the locks on: a known key gives the payment that has it.
unfoldable pub book_payment : Env → ℕ → ℕ → Method → Option ℕ → Text → Text → Option ℕ → M Payment
book_payment env customer amount method actor key reference paid_at = do
  actor_lock actor
  _ ← get_customer customer
  existing ← gets (λ db. find (λ p. text_eq p.idempotency_key key) db.ledger.payments)
  maybe existing
      (do
        pk ← fresh
        record_payment env (new_payment env pk customer amount method actor key reference paid_at)
            actor)
      (λ p. do raise_if (not (same_payment p customer amount method reference)) key_reused; pure p)

unfoldable pub receive_payment :
    Env → ℕ → DecimalInput → Text → Option ℕ → Text → Text → Option ℕ → M Payment
receive_payment env customer value method_text actor key reference paid_at = do
  amount ← lift (money value)
  method ← or_raise bad_method (read_method method_text)
  raise_if (is_bad_key key) bad_method
  book_payment env customer amount method actor key reference paid_at

-- `credit_memo__invoice__allocations__payment=payment`
unfoldable pub is_refunded : Ledger → ℕ → Bool
is_refunded l payment =
    any (λ r. any (λ a. a.payment == payment && refunds_invoice l.memos a.invoice r) l.allocations)
      l.refunds

-- `invoice.status = 'open'` for an allocated invoice that is not void.
unfoldable pub reopen : ℕ → List Invoice → List Invoice
reopen pk vs = if any (λ v. v.pk == pk && is_void v.status) vs then vs else set_status pk opened vs

unfoldable pub reopen_all : List Allocation → List Invoice → List Invoice
reopen_all [] vs = vs
reopen_all (a ∷ al) vs = reopen_all al (reopen a.invoice vs)

unfoldable pub subscription_of : ℕ → List Invoice → Option ℕ
subscription_of pk vs = elim (find (λ v. v.pk == pk) vs) [ none ↦ none | some v ↦ v.subscription ]

-- The set of the subscriptions of the allocated invoices.
unfoldable pub touched : List Invoice → List Allocation → List (Option ℕ)
touched vs [] = []
touched vs (a ∷ al) =
    let rest = touched vs al in
    let s = subscription_of a.invoice vs in if any (same_key s) rest then rest else s ∷ rest

-- The writes of `reverse_payment`.
unfoldable pub record_reversal : Env → Payment → PaymentReversal → ℕ → M PaymentReversal
record_reversal env p reversal actor = do
  rows ← gets (λ db. select (λ a. a.payment == p.pk) db.ledger.allocations)
  subscriptions ← gets (λ db. touched db.ledger.invoices rows)
  modify (
      with_ledger
        λ l. record l { reversals = reversal ∷ l.reversals; invoices = reopen_all rows l.invoices })
  allocate_customer env p.customer
  refresh_all env subscriptions
  audit env (some actor) (codes "billing.payment.reversed") p.pk
  pure reversal

unfoldable pub reverse_payment : Env → Payment → ℕ → Text → M PaymentReversal
reverse_payment env payment actor reason = do
  raise_if (is_empty (strip reason)) no_reason
  actor_lock (some actor)
  _ ← get_customer payment.customer
  row ← gets (λ db. find (λ p. p.pk == payment.pk) db.ledger.payments)
  p ← or_raise does_not_exist row
  existing ← gets (λ db. find (λ r. r.payment == p.pk) db.ledger.reversals)
  maybe existing
      (do
        refunded ← gets (λ db. is_refunded db.ledger p.pk)
        raise_if refunded refunded_charge
        pk ← fresh
        record_reversal env p
            (record { pk = pk; payment = p.pk; reason = strip reason; created_by = actor }) actor)
      (λ r. pure r)
