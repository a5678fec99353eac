-- ===== src/Billing/Allocate/Laws.antt =====
-- `_allocate_customer` on a whole ledger.
use fireisp.Prelude.{
  ℕ, ◌≤◌, ◌<◌, ◌≡◌, ◌⊎◌, List, [], ◌∷◌, arith, ◌==◌, All, All-map, map, ==_refl, select-All,
  select-All_passed, sum_where,
}
use fireisp.Prelude.Int.{pos_part, neg_part}
use fireisp.Prelude.Sort.{
  order_by-All, Distinct, select-Distinct, order_by-Distinct, IsSorted, order_by-IsSorted,
}
use fireisp.Billing.Allocate.Order.{invoice_leb_total, invoice_leb_trans}
use fireisp.Store.{Payment, Ledger}
use fireisp.Billing.Balances.{balance}
use fireisp.Billing.Allocate.{payment_leb, invoice_leb, open_invoices, usable_payments, allocate}
use fireisp.Billing.Allocate.Step.{IsFunded}
use fireisp.Billing.Allocate.Loop.{IsLive, IsSpent}
use fireisp.Billing.Allocate.Settle.{StatusIs, settled_status}
use fireisp.Billing.Allocate.Customer.{
  OldestFirst, settle_all-kept, settle_all-overpaid, settle_all-status, settle_all-IsFunded,
  settle_all-positive, settle_all-exhausts, settle_all-OldestFirst,
}

-- What a payment brought in, by its key.
unfoldable pub received : List Payment → ℕ → ℕ
received payments k = sum_where (λ p. p.pk == k) (λ p. p.amount) payments

-- The database's constraints on the ledger, with the rule that no payment is spent twice.
pub record IsSound (l : Ledger) : Type 0 where
  pub distinct : Distinct (λ v. v.pk) l.invoices
  pub funded : IsFunded (received l.payments) l.allocations
  pub positive : All (λ a. 0 < a.amount) l.allocations

covers :
    (ps : List Payment) (funds : ℕ → ℕ)
    → ((k : ℕ) → received ps k ≤ funds k)
    → All (λ p. p.amount ≤ funds p.pk) ps
unfolding received
covers [] funds h = tt
covers (p ∷ ps) funds h =
    (ground (arith, h p.pk, ==_refl p.pk), covers ps funds (λ k. ground (arith, h k)))

module _ (customer : ℕ) (l : Ledger) where
  usable-IsLive : All (IsLive l.reversals) (usable_payments customer l)
  unfolding usable_payments
  usable-IsLive =
      order_by-All payment_leb (IsLive l.reversals) _
        (All-map _ _ _ (λ p h. ground arith) (select-All_passed _ l.payments))

  usable_covered : All (λ p. p.amount ≤ received l.payments p.pk) (usable_payments customer l)
  unfolding usable_payments
  usable_covered =
      order_by-All payment_leb _ _
        (select-All _ _ l.payments (covers l.payments (received l.payments) (λ k. omega arith)))

  open-Distinct : Distinct (λ v. v.pk) l.invoices → Distinct (λ v. v.pk) (open_invoices customer l)
  unfolding open_invoices
  open-Distinct d = order_by-Distinct _ invoice_leb _ (select-Distinct _ _ l.invoices d)

pub allocate-kept :
    (customer : ℕ) (l : Ledger)
    → let l' = allocate customer l in
      (l'.payments ≡ l.payments)
      × (l'.reversals ≡ l.reversals)
      × (l'.memos ≡ l.memos)
      × (l'.refunds ≡ l.refunds)
      × (map (λ v. v.pk) l'.invoices ≡ map (λ v. v.pk) l.invoices)
unfolding allocate
allocate-kept customer l = settle_all-kept (usable_payments customer l) (open_invoices customer l) l

module _ (customer : ℕ) (l : Ledger) (sound : IsSound l) where
  abbrev live : All (IsLive l.reversals) (usable_payments customer l)
  live = usable-IsLive customer l

  abbrev apart : Distinct (λ v. v.pk) (open_invoices customer l)
  apart = open-Distinct customer l sound.distinct

  -- After the allocation no payment is spent beyond its amount and every row moves money.
  pub allocate-IsFunded :
      IsFunded (received l.payments) (allocate customer l).allocations
      × All (λ a. 0 < a.amount) (allocate customer l).allocations
  unfolding allocate
  allocate-IsFunded = (
    settle_all-IsFunded (usable_payments customer l) (open_invoices customer l) l
        (received l.payments) live (usable_covered customer l) sound.funded,
    settle_all-positive (usable_payments customer l) (open_invoices customer l) l live
        sound.positive,
  )

  -- _allocate_customer on a sound ledger pays no open invoice beyond its balance: what was
  -- overpaid on it before is what is overpaid after.
  pub allocate-overpaid :
      All
        (λ v. neg_part (balance (allocate customer l) v) ≡ neg_part (balance l v))
        (open_invoices customer l)
  unfolding allocate
  allocate-overpaid = settle_all-overpaid (usable_payments customer l) _ l live apart

  -- After _allocate_customer on a sound ledger each invoice that was open is marked paid if
  -- nothing is owed on it and open otherwise.
  pub allocate-status :
      let l' = allocate customer l in
      All (λ v. StatusIs v.pk (settled_status l' v) l'.invoices) (open_invoices customer l)
  unfolding allocate
  allocate-status = settle_all-status (usable_payments customer l) _ l live apart

  -- After _allocate_customer on a sound ledger, either nothing is owed on any invoice that was
  -- open, or no usable payment of the customer has anything left.
  pub allocate-exhausts :
      let l' = allocate customer l in
      All (λ v. pos_part (balance l' v) ≡ 0) (open_invoices customer l)
      ⊎ All (IsSpent l'.allocations) (usable_payments customer l)
  unfolding allocate
  allocate-exhausts = settle_all-exhausts (usable_payments customer l) _ l live apart

  -- After _allocate_customer on a sound ledger, an open invoice that is left owing has taken all
  -- the credit: every open invoice behind it has the balance that it had. The open invoices stand
  -- in the order of their periods, those without a period last, then by creation and by key.
  pub allocate-OldestFirst :
      OldestFirst l (allocate customer l) (open_invoices customer l)
      × IsSorted invoice_leb (open_invoices customer l)
  unfolding allocate open_invoices
  allocate-OldestFirst = (
    settle_all-OldestFirst (usable_payments customer l) _ l live apart,
    order_by-IsSorted invoice_leb invoice_leb_total invoice_leb_trans _,
  )
