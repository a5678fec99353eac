-- ===== src/Billing/Periods.antt =====
-- `create_period` and `renew_subscription` of billing/services.py.
use fireisp.Prelude.{
  ℕ, ◌+◌, ◌-◌, ◌*◌, Bool, true, false, not, ◌&&◌, Option, none, some, List, [], ◌∷◌, ltb, ◌==◌,
  if◌then◌else◌, find, select,
}
use fireisp.Prelude.Int.{ℤ, pos, leb_ℤ, ◌+ℤ◌}
use fireisp.Prelude.Text.{codes}
use fireisp.Prelude.Sort.{order_by}
use fireisp.Calendar.{Date, date_eq, anniversary}
use fireisp.Store.{
  Subscription, pending, cancelled, Invoice, opened, Payment, Ledger, M, ◌>>=◌, maybe, ◌>>◌, pure,
  raise, gets, modify, lift, fresh, raise_if, or_raise, with_ledger, not_activated, off_anniversary,
  value_error, type_error, not_renewable, unpaid_period, no_credit, Env,
}
use fireisp.Core.{audit, get_customer, get_subscription, get_plan}
use fireisp.Billing.Money.{money, stored, net_of_tax}
use fireisp.Billing.Balances.{is_reversed, balance, available}
use fireisp.Billing.Allocate.{start_ltb}
use fireisp.Billing.Account.{allocate_customer, is_void, opt_date_eq}

-- The activation of a subscription that is no longer pending.
abbrev pub effective_activation : Subscription → Option ℕ
effective_activation s = elim s.status [ pending ↦ none | _ ↦ s.activated_at ]

abbrev pub months_of : Date → ℕ
months_of d = d.year * 12 + d.month

-- The period must run from one anniversary of the activation to the next.
unfoldable pub check_period : Date → Date → Date → M (Unit {0})
check_period activation start end =
    if ltb (months_of start) (months_of activation) then raise off_anniversary else do
      let index = months_of start - months_of activation
      first ← or_raise value_error (anniversary activation index)
      if not (date_eq start first) then raise off_anniversary else do
        next ← or_raise value_error (anniversary activation (index + 1))
        raise_if (not (date_eq end next)) off_anniversary

unfoldable pub is_period : ℕ → Date → Invoice → Bool
is_period subscription start v =
    elim v.subscription [ none ↦ false | some s ↦ s == subscription ]
    && opt_date_eq v.period_start (some start)

-- The invoice of a period, with the tax that its price includes.
unfoldable pub period_invoice : ℕ → ℕ → Subscription → Date → Date → ℕ → ℕ → Invoice
period_invoice pk now s start end total tax_rate =
    let subtotal = net_of_tax total tax_rate in
    record {
      pk = pk;
      customer = s.customer;
      subscription = some s.pk;
      number = (s.pk, start);
      period_start = some start;
      period_end = some end;
      subtotal = subtotal;
      tax = total - subtotal;
      total = total;
      status = opened;
      created_at = now;
    }

-- The new row, under a new key.
unfoldable pub enter_period : Env → Subscription → Date → Date → ℕ → ℕ → M Invoice
enter_period env s start end total tax_rate = do
  pk ← fresh
  let v = period_invoice pk env.now s start end total tax_rate
  modify (with_ledger λ l. record l { invoices = v ∷ l.invoices })
  pure v

-- The end of `create_period`, where no invoice of the period is there yet.
unfoldable pub bill_period : Env → Subscription → Date → Date → Option ℕ → M Invoice
bill_period env s start end actor = do
  plan ← get_plan s.plan
  total ← lift (money (stored plan.price_mxn))
  v ← enter_period env s start end total plan.tax_rate
  audit env actor (codes "billing.invoice.created") v.pk
  allocate_customer env s.customer
  pure v

unfoldable pub create_period : Env → Subscription → Date → Date → Option ℕ → M Invoice
create_period env subscription start end actor = do
  _ ← get_customer subscription.customer
  s ← get_subscription subscription.pk
  activated ← or_raise not_activated (effective_activation s)
  check_period (env.local_date activated) start end
  existing ← gets (λ db. find (is_period s.pk start) db.ledger.invoices)
  maybe existing (bill_period env s start end actor) (λ v. pure v)

-- `order_by('-period_start').first()`, where PostgreSQL puts an absent date first.
unfoldable pub last_invoice : ℕ → Ledger → Option Invoice
last_invoice subscription l =
    find (λ v. true)
      (order_by (λ a b. not (start_ltb a.period_start b.period_start))
        (select
          (λ v.
            elim v.subscription [ none ↦ false | some s ↦ s == subscription ]
            && not (is_void v.status))
          l.invoices))

unfoldable pub sum_available : Ledger → List Payment → ℤ
sum_available l [] = pos 0
sum_available l (p ∷ ps) = available l.reversals l.allocations p +ℤ sum_available l ps

-- The credit of a customer: what is left of the payments that stand.
unfoldable pub customer_credit : ℕ → Ledger → ℤ
customer_credit customer l =
    sum_available l
      (select (λ p. p.customer == customer && not (is_reversed l.reversals p.pk)) l.payments)

abbrev pub renewable_activation : Subscription → Option ℕ
renewable_activation s = elim s.status [ cancelled ↦ none | _ ↦ s.activated_at ]

-- `anniversary(activation,index+1)`, where `index` counts the months from the activation to the
-- month of `start` and may be negative.
unfoldable pub renewal_end : Date → Date → Option Date
renewal_end activation start =
    anniversary (record activation { year = start.year; month = start.month }) 1

unfoldable pub renew_subscription : Env → Subscription → Option ℕ → M Invoice
renew_subscription env subscription actor = do
  _ ← get_customer subscription.customer
  s ← get_subscription subscription.pk
  activated ← or_raise not_renewable (renewable_activation s)
  latest ← gets (λ db. last_invoice s.pk db.ledger)
  last ← or_raise unpaid_period latest
  owing ← gets (λ db. not (leb_ℤ (balance db.ledger last) (pos 0)))
  raise_if owing unpaid_period
  plan ← get_plan s.plan
  credit ← gets (λ db. customer_credit s.customer db.ledger)
  raise_if (not (leb_ℤ (pos plan.price_mxn) credit)) no_credit
  start ← or_raise type_error last.period_end
  end ← or_raise value_error (renewal_end (env.local_date activated) start)
  create_period env s start end actor
