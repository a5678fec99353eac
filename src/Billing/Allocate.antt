-- ===== src/Billing/Allocate.antt =====
-- `_allocate_customer` of billing/services.py: the credits of a customer pay the open invoices,
-- oldest charge first.
pub mod Step
pub mod Loop
pub mod Settle
pub mod Customer
pub mod Laws
mod Order
use fireisp.Prelude.{
  ℕ, ◌≡◌, Bool, true, false, not, ◌&&◌, ◌||◌, Option, none, some, List, [], ◌∷◌, ltb, leb, ◌==◌,
  if◌then◌else◌, select, update_where,
}
use fireisp.Prelude.Int.{ℤ, pos, pos_part, ◌-ℤ◌, leb_ℤ, is_positive, min_ℤ}
use fireisp.Prelude.Sort.{order_by}
use fireisp.Calendar.{Date, date_eq, date_ltb}
use fireisp.Store.{
  Invoice, InvoiceStatus, opened, paid, void, Payment, Allocation, PaymentReversal, Ledger,
}
use fireisp.Billing.Balances.{is_reversed, balance, available}

-- `NULLS LAST`, the order of PostgreSQL.
unfoldable pub start_ltb : Option Date → Option Date → Bool
start_ltb (some a) (some b) = date_ltb a b
start_ltb (some a) none = true
start_ltb none b = false

unfoldable pub start_eq : Option Date → Option Date → Bool
start_eq (some a) (some b) = date_eq a b
start_eq (some a) none = false
start_eq none (some b) = false
start_eq none none = true

-- `order_by('period_start','created_at','pk')`
unfoldable pub invoice_leb : Invoice → Invoice → Bool
invoice_leb a b =
    start_ltb a.period_start b.period_start
    || start_eq a.period_start b.period_start
      && (ltb a.created_at b.created_at || a.created_at == b.created_at && leb a.pk b.pk)

-- `order_by('created_at','pk')`
unfoldable pub payment_leb : Payment → Payment → Bool
payment_leb a b = ltb a.created_at b.created_at || a.created_at == b.created_at && leb a.pk b.pk

abbrev pub is_open : InvoiceStatus → Bool
is_open opened = true
is_open _ = false

unfoldable pub open_invoices : ℕ → Ledger → List Invoice
open_invoices customer l =
    order_by invoice_leb (select (λ v. v.customer == customer && is_open v.status) l.invoices)

unfoldable pub usable_payments : ℕ → Ledger → List Payment
usable_payments customer l =
    order_by payment_leb
      (select (λ p. p.customer == customer && not (is_reversed l.reversals p.pk)) l.payments)

-- One payment is put to an invoice: the body of the inner loop, up to its `break`.
unfoldable pub pay : List PaymentReversal → Payment → ℕ → ℤ → List Allocation → ℤ × List Allocation
pay reversals p invoice remaining allocations =
    let applied = min_ℤ remaining (available reversals allocations p) in
    if is_positive applied
    then (
      remaining -ℤ applied,
      record { payment = p.pk; invoice = invoice; amount = pos_part applied } ∷ allocations,
    )
    else (remaining, allocations)

-- The inner loop, with its `break`.
unfoldable pub pay_invoice :
    List PaymentReversal → List Payment → ℕ → ℤ → List Allocation → ℤ × List Allocation
pay_invoice reversals [] invoice remaining allocations = (remaining, allocations)
pay_invoice reversals (p ∷ ps) invoice remaining allocations =
    let next = pay reversals p invoice remaining allocations in
    let rest = pay_invoice reversals ps invoice next.0 next.1 in
    if leb_ℤ next.0 (pos 0) then next else rest

-- `invoice.save(update_fields=['status'])`
unfoldable pub set_status : ℕ → InvoiceStatus → List Invoice → List Invoice
set_status pk status = update_where (λ v. v.pk == pk) (λ v. record v { status = status })

-- The body of the outer loop.
unfoldable pub settle : List Payment → Invoice → Ledger → Ledger
settle ps v l =
    let result = pay_invoice l.reversals ps v.pk (balance l v) l.allocations in
    record l {
      allocations = result.1;
      invoices = set_status v.pk (if leb_ℤ result.0 (pos 0) then paid else opened) l.invoices;
    }

-- The outer loop.
unfoldable pub settle_all : List Payment → List Invoice → Ledger → Ledger
settle_all ps [] l = l
settle_all ps (v ∷ vs) l = settle_all ps vs (settle ps v l)

-- The changes of `_allocate_customer` to the ledger.
unfoldable pub allocate : ℕ → Ledger → Ledger
allocate customer l = settle_all (usable_payments customer l) (open_invoices customer l) l
