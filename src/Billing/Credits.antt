-- ===== src/Billing/Credits.antt =====
-- `issue_credit_memo` and `refund_credit` of billing/services.py.
use fireisp.Prelude.{
  ℕ, ◌+◌, Bool, not, ◌&&◌, ◌||◌, Option, some, List, ◌∷◌, leb, ltb, ◌==◌, if◌then◌else◌, find,
  sum_where,
}
use fireisp.Prelude.Int.{pos, neg_part, leb_ℤ}
use fireisp.Prelude.Text.{Text, codes, text_eq, strip, is_empty}
use fireisp.Store.{
  Method, Invoice, opened, paid, CreditMemo, Refund, Ledger, M, ◌>>=◌, maybe, ◌>>◌, pure, gets,
  modify, lift, fresh, raise_if, or_raise, with_ledger, does_not_exist, bad_method, key_reused,
  no_reason, void_invoice, refund_exceeds, Env,
}
use fireisp.Core.{audit, actor_lock, get_customer, get_invoice}
use fireisp.Billing.Money.{DecimalInput, money}
use fireisp.Billing.Balances.{balance}
use fireisp.Billing.Allocate.{set_status}
use fireisp.Billing.Account.{is_void, refresh_subscription}
use fireisp.Billing.Payments.{read_method, method_eq}

-- The memo on the ledger, with the invoice's new status.
unfoldable pub apply_memo : CreditMemo → Invoice → Ledger → Ledger
apply_memo memo v l =
    let credited = record l { memos = memo ∷ l.memos } in
    record credited {
      invoices =
          set_status v.pk (if leb_ℤ (balance credited v) (pos 0) then paid else opened) l.invoices;
    }

-- The writes of `issue_credit_memo`, where the source is new.
unfoldable pub record_memo : Env → CreditMemo → Invoice → M CreditMemo
record_memo env memo v = do
  modify (with_ledger (apply_memo memo v))
  refresh_subscription env v.subscription
  audit env memo.created_by (codes "billing.credit.applied") memo.pk
  pure memo

-- The row that `CreditMemo.objects.create` writes.
abbrev pub new_memo : ℕ → Invoice → ℕ → Text → Text → Option ℕ → CreditMemo
new_memo pk v amount reason source_key actor = record {
  pk = pk;
  invoice = v.pk;
  amount = amount;
  reason = reason;
  source_key = source_key;
  created_by = actor;
}

unfoldable pub issue_credit_memo :
    Env → Invoice → DecimalInput → Text → Text → Option ℕ → M CreditMemo
issue_credit_memo env invoice value reason source_key actor = do
  amount ← lift (money value)
  raise_if (is_empty (strip reason) || is_empty source_key) no_reason
  _ ← get_customer invoice.customer
  v ← get_invoice invoice.pk
  existing ← gets (λ db. find (λ m. text_eq m.source_key source_key) db.ledger.memos)
  maybe existing
      (do
        raise_if (is_void v.status) void_invoice
        pk ← fresh
        record_memo env (new_memo pk v amount reason source_key actor) v)
      (λ m. do raise_if (not (m.invoice == v.pk && m.amount == amount)) key_reused; pure m)

-- What has been refunded of a memo.
unfoldable pub memo_refunded : List Refund → ℕ → ℕ
memo_refunded refunds memo = sum_where (λ r. r.credit_memo == memo) (λ r. r.amount) refunds

-- `amount>memo.amount-already or amount>max(-memo.invoice.balance,Decimal(0))`
unfoldable pub exceeds : Ledger → CreditMemo → Invoice → ℕ → Bool
exceeds l memo v amount =
    not (leb (amount + memo_refunded l.refunds memo.pk) memo.amount)
    || ltb (neg_part (balance l v)) amount

unfoldable pub same_refund : Refund → ℕ → ℕ → Method → Text → Bool
same_refund r memo amount method reference =
    r.credit_memo == memo
    && r.amount == amount
    && method_eq r.method method
    && text_eq r.reference reference

-- The end of `refund_credit`, where the key is new.
unfoldable pub record_refund : Env → Refund → CreditMemo → Invoice → M Refund
record_refund env refund memo v = do
  over ← gets (λ db. exceeds db.ledger memo v refund.amount)
  raise_if over refund_exceeds
  modify (with_ledger λ l. record l { refunds = refund ∷ l.refunds })
  audit env (some refund.created_by) (codes "billing.refund.recorded") refund.pk
  pure refund

-- The row that `Refund.objects.create` writes.
abbrev pub new_refund : ℕ → CreditMemo → ℕ → Method → Text → Text → ℕ → Refund
new_refund pk m amount method reference key actor = record {
  pk = pk;
  credit_memo = m.pk;
  amount = amount;
  method = method;
  reference = reference;
  idempotency_key = key;
  created_by = actor;
}

unfoldable pub refund_credit : Env → CreditMemo → DecimalInput → Text → Text → Text → ℕ → M Refund
refund_credit env memo value method_text reference key actor = do
  amount ← lift (money value)
  method ← or_raise bad_method (read_method method_text)
  raise_if (is_empty (strip reference) || is_empty key) bad_method
  actor_lock (some actor)
  charged ← get_invoice memo.invoice
  _ ← get_customer charged.customer
  row ← gets (λ db. find (λ m. m.pk == memo.pk) db.ledger.memos)
  m ← or_raise does_not_exist row
  v ← get_invoice m.invoice
  existing ← gets (λ db. find (λ r. text_eq r.idempotency_key key) db.ledger.refunds)
  maybe existing
      (do pk ← fresh; record_refund env (new_refund pk m amount method reference key actor) m v)
      (λ r. do raise_if (not (same_refund r m.pk amount method reference)) key_reused; pure r)
