-- ===== src/Billing/Invariant/Adjust.antt =====
-- `create_period`, `renew_subscription`, `issue_credit_memo` and `refund_credit` of
-- billing/services.py keep the ledger's invariant.
use fireisp.Prelude.{ℕ, suc, ◌<◌, ◌≢◌, Option, ◌∷◌, arith, All-map, if◌then◌else◌}
use fireisp.Prelude.Int.{pos, leb_ℤ}
use fireisp.Prelude.Sort.{All_of_keys, Distinct_of_keys}
use fireisp.Prelude.Text.{Text}
use fireisp.Calendar.{Date}
use fireisp.Store.{
  Subscription, Invoice, opened, paid, CreditMemo, Refund, Ledger, with_ledger, modify, Env,
}
use fireisp.Store.Preserves.{Preserves, Preserves-modify}
use fireisp.Billing.Money.{DecimalInput}
use fireisp.Billing.Balances.{balance}
use fireisp.Billing.Allocate.Settle.{set_status-pks}
use fireisp.Billing.Invariant.{IsConsistent, Consistent, consistent_rules}
use fireisp.Billing.Periods.{
  check_period, period_invoice, enter_period, bill_period, create_period, renew_subscription,
}
use fireisp.Billing.Credits.{
  apply_memo, record_memo, issue_credit_memo, record_refund, refund_credit,
}

-- The invoice of a new period has a key that no other invoice has.
period-IsConsistent :
    (now : ℕ) (s : Subscription) (start end : Date) (total tax_rate : ℕ) (l : Ledger) (n : ℕ)
    → IsConsistent l n
    → IsConsistent
        (record l { invoices = period_invoice n now s start end total tax_rate ∷ l.invoices })
        (suc n)
unfolding period_invoice
period-IsConsistent now s start end total tax_rate l n c = record {
  sound = record {
    distinct = (
      All-map (λ v. v.pk < n) (λ v. v.pk ≢ n) l.invoices (λ v h. omega arith) c.issued,
      c.sound.distinct,
    );
    funded = c.sound.funded;
    positive = c.sound.positive;
  };
  issued = (
    omega arith,
    All-map (λ v. v.pk < n) (λ v. v.pk < suc n) l.invoices (λ v h. omega arith) c.issued,
  );
}

enter_period-Consistent :
    (env : Env) (s : Subscription) (start end : Date) (total tax_rate : ℕ)
    → Preserves Consistent (enter_period env s start end total tax_rate)
unfolding enter_period
enter_period-Consistent env s start end total tax_rate = record {
  at = λ db c. period-IsConsistent env.now s start end total tax_rate db.ledger db.next_pk c;
}

bill_period-Consistent :
    (env : Env) (s : Subscription) (start end : Date) (actor : Option ℕ)
    → Preserves Consistent (bill_period env s start end actor)
unfolding bill_period
bill_period-Consistent env s start end actor =
    search (consistent_rules, enter_period-Consistent) depth 9

check_period-Consistent :
    (activation start end : Date) → Preserves Consistent (check_period activation start end)
unfolding check_period
check_period-Consistent activation start end = search consistent_rules depth 9

-- A new period keeps the ledger consistent.
pub create_period-Consistent :
    (env : Env) (subscription : Subscription) (start end : Date) (actor : Option ℕ)
    → Preserves Consistent (create_period env subscription start end actor)
unfolding create_period
create_period-Consistent env subscription start end actor =
    search (consistent_rules, bill_period-Consistent, check_period-Consistent) depth 12

-- A renewal keeps the ledger consistent.
pub renew_subscription-Consistent :
    (env : Env) (subscription : Subscription) (actor : Option ℕ)
    → Preserves Consistent (renew_subscription env subscription actor)
unfolding renew_subscription
renew_subscription-Consistent env subscription actor =
    search (consistent_rules, create_period-Consistent) depth 16

-- A memo and the new status leave every key and every allocation in place.
memo-IsConsistent :
    (memo : CreditMemo) (v : Invoice) (l : Ledger) (n : ℕ)
    → IsConsistent l n
    → IsConsistent (apply_memo memo v l) n
unfolding apply_memo
memo-IsConsistent memo v l n c =
    let keys =
      set_status-pks v.pk
        (if leb_ℤ (balance (record l { memos = memo ∷ l.memos }) v) (pos 0) then paid else opened)
        l.invoices in
    record {
      sound = record {
        distinct = Distinct_of_keys (λ v. v.pk) _ l.invoices keys c.sound.distinct;
        funded = c.sound.funded;
        positive = c.sound.positive;
      };
      issued = All_of_keys (λ v. v.pk) (λ k. k < n) _ l.invoices keys c.issued;
    }

record_memo-Consistent :
    (env : Env) (memo : CreditMemo) (v : Invoice) → Preserves Consistent (record_memo env memo v)
unfolding record_memo
record_memo-Consistent env memo v =
    let entered : Preserves Consistent (modify (with_ledger (apply_memo memo v))) =
      Preserves-modify _ (λ db c. memo-IsConsistent memo v db.ledger db.next_pk c) in
    search consistent_rules depth 9

-- A credit memo keeps the ledger consistent.
pub issue_credit_memo-Consistent :
    (env : Env) (invoice : Invoice) (value : DecimalInput) (reason source_key : Text)
    (actor : Option ℕ)
    → Preserves Consistent (issue_credit_memo env invoice value reason source_key actor)
unfolding issue_credit_memo
issue_credit_memo-Consistent env invoice value reason source_key actor =
    search (consistent_rules, record_memo-Consistent) depth 12

record_refund-Consistent :
    (env : Env) (refund : Refund) (memo : CreditMemo) (v : Invoice)
    → Preserves Consistent (record_refund env refund memo v)
unfolding record_refund
record_refund-Consistent env refund memo v =
    let entered : Preserves Consistent
        (modify (with_ledger λ l. record l { refunds = refund ∷ l.refunds })) =
      Preserves-modify _ (λ db c. record {
        sound = record {
          distinct = c.sound.distinct;
          funded = c.sound.funded;
          positive = c.sound.positive;
        };
        issued = c.issued;
      }) in
    search consistent_rules depth 9

-- A refund keeps the ledger consistent.
pub refund_credit-Consistent :
    (env : Env) (memo : CreditMemo) (value : DecimalInput) (method_text reference key : Text)
    (actor : ℕ)
    → Preserves Consistent (refund_credit env memo value method_text reference key actor)
unfolding refund_credit
refund_credit-Consistent env memo value method_text reference key actor =
    search (consistent_rules, record_refund-Consistent) depth 16
