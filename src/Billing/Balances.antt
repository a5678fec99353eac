-- ===== src/Billing/Balances.antt =====
-- The derived amounts of billing/models.py: `Invoice.paid_amount`, `Invoice.balance` and
-- `Payment.available`. Amounts are whole cents, so `quantize` changes nothing.
use fireisp.Prelude.{ℕ, ◌+◌, Bool, not, ◌&&◌, List, ◌==◌, if◌then◌else◌, any, sum_where}
use fireisp.Prelude.Int.{ℤ, pos, sub_ℕ}
use fireisp.Store.{Invoice, Payment, Allocation, PaymentReversal, CreditMemo, Refund, Ledger}

-- `hasattr(payment, 'reversal')`
unfoldable pub is_reversed : List PaymentReversal → ℕ → Bool
is_reversed reversals payment = any (λ r. r.payment == payment) reversals

unfoldable pub allocated : List Allocation → ℕ → ℕ
allocated allocations payment = sum_where (λ a. a.payment == payment) (λ a. a.amount) allocations

unfoldable pub paid_amount : List PaymentReversal → List Allocation → ℕ → ℕ
paid_amount reversals allocations invoice =
    sum_where (λ a. a.invoice == invoice && not (is_reversed reversals a.payment)) (λ a. a.amount)
      allocations

unfoldable pub credited : List CreditMemo → ℕ → ℕ
credited memos invoice = sum_where (λ m. m.invoice == invoice) (λ m. m.amount) memos

-- `credit_memo__invoice`: the refund's memo adjusts this invoice.
unfoldable pub refunds_invoice : List CreditMemo → ℕ → Refund → Bool
refunds_invoice memos invoice r = any (λ m. m.pk == r.credit_memo && m.invoice == invoice) memos

unfoldable pub refunded : List CreditMemo → List Refund → ℕ → ℕ
refunded memos refunds invoice = sum_where (refunds_invoice memos invoice) (λ r. r.amount) refunds

-- `self.total - self.paid_amount - credited + refunded`
unfoldable pub balance : Ledger → Invoice → ℤ
balance l v =
    sub_ℕ (v.total + refunded l.memos l.refunds v.pk)
      (paid_amount l.reversals l.allocations v.pk + credited l.memos v.pk)

unfoldable pub available : List PaymentReversal → List Allocation → Payment → ℤ
available reversals allocations p =
    if is_reversed reversals p.pk then pos 0 else sub_ℕ p.amount (allocated allocations p.pk)
