-- ===== src/Billing/Allocate/Settle.antt =====
-- The outer loop of `_allocate_customer`: the open invoices are settled one after another.
use fireisp.Prelude.{
  ℕ, ◌+◌, ◌≤◌, ◌<◌, ◌≡◌, ◌≢◌, ◌⊎◌, refl, ap, map, ◌∙◌, List, [], ◌∷◌, arith, All, All-zip,
  if◌then◌else◌,
}
use fireisp.Prelude.Int.{ℤ, pos, pos_part, neg_part, leb_ℤ, sub_ℕ_parts, eq_of_parts}
use fireisp.Store.{Invoice, InvoiceStatus, opened, paid, Payment, Allocation, Ledger}
use fireisp.Billing.Balances.{allocated, paid_amount, credited, refunded, balance}
use fireisp.Billing.Allocate.{pay_invoice, set_status, settle}
use fireisp.Billing.Allocate.Step.{
  Owes, IsFunded, pay-Owes, pay-paid_others, pay-IsFunded, pay-positive,
}
use fireisp.Billing.Allocate.Loop.{
  IsLive, IsSpent, pay_invoice_inv, pay_invoice-grows, pay_invoice-Exhausts, pay_invoice_spent,
}

-- Every row of the invoice has this status.
abbrev pub StatusIs : ℕ → InvoiceStatus → List Invoice → Type 0
StatusIs i s = All (λ w. w.pk ≡ i → w.status ≡ s)

set_status_self : (i : ℕ) (s : InvoiceStatus) (ws : List Invoice) → StatusIs i s (set_status i s ws)
unfolding set_status
set_status_self i s [] = tt
set_status_self i s (w ∷ ws) = (ground arith, set_status_self i s ws)

set_status_other :
    (i j : ℕ) (s t : InvoiceStatus) (ws : List Invoice)
    → j ≢ i
    → StatusIs i s ws
    → StatusIs i s (set_status j t ws)
unfolding set_status
set_status_other i j s t [] other h = tt
set_status_other i j s t (w ∷ ws) other h =
    (ground (arith, h.0), set_status_other i j s t ws other h.1)

pub set_status-pks :
    (i : ℕ) (s : InvoiceStatus) (ws : List Invoice)
    → map (λ v. v.pk) (set_status i s ws) ≡ map (λ v. v.pk) ws
unfolding set_status
set_status-pks i s [] = refl
set_status-pks i s (w ∷ ws) = ground (arith, set_status-pks i s ws)

-- `paid` exactly if nothing is owed.
abbrev pub settled_status : Ledger → Invoice → InvoiceStatus
settled_status l v = if leb_ℤ (balance l v) (pos 0) then paid else opened

module _ (ps : List Payment) (v : Invoice) (l : Ledger) (live : All (IsLive l.reversals) ps) where
  abbrev outcome : ℤ × List Allocation
  outcome = pay_invoice l.reversals ps v.pk (balance l v) l.allocations

  -- What the loop leaves owing, with what it paid, is what was owed.
  outcome-Owes :
      Owes l.reversals v.pk
        (paid_amount l.reversals l.allocations v.pk + pos_part (balance l v))
        (neg_part (balance l v))
        outcome
  outcome-Owes =
      let owed = paid_amount l.reversals l.allocations v.pk + pos_part (balance l v) in
      pay_invoice_inv l.reversals v.pk (Owes l.reversals v.pk owed (neg_part (balance l v)))
        (IsLive l.reversals) (λ p r al q h. pay-Owes l.reversals p v.pk r al q h) ps (balance l v)
        l.allocations live (refl, refl)

  pub settle-balance : balance (settle ps v l) v ≡ outcome.0
  unfolding settle balance
  settle-balance =
      let total = v.total + refunded l.memos l.refunds v.pk in
      let other = credited l.memos v.pk in
      eq_of_parts _ _ (
        omega (
          arith,
          outcome-Owes,
          sub_ℕ_parts total (paid_amount l.reversals l.allocations v.pk + other),
          sub_ℕ_parts total (paid_amount l.reversals outcome.1 v.pk + other),
        ))

  pub settle-overpaid : neg_part (balance (settle ps v l) v) ≡ neg_part (balance l v)
  settle-overpaid = rw settle-balance (outcome-Owes.1)

  pub settle-balance_others : (w : Invoice) → w.pk ≢ v.pk → balance (settle ps v l) w ≡ balance l w
  unfolding settle balance
  settle-balance_others w other =
      let same : paid_amount l.reversals outcome.1 w.pk
          ≡ paid_amount l.reversals l.allocations w.pk =
        pay_invoice_inv l.reversals v.pk
          (λ next. paid_amount l.reversals next.1 w.pk ≡ paid_amount l.reversals l.allocations w.pk)
          (IsLive l.reversals)
          (λ p r al q h. pay-paid_others l.reversals p v.pk r al q w.pk other ∙ h) ps (balance l v)
          l.allocations live refl in
      rw same refl

  pub settle-status : StatusIs v.pk (settled_status (settle ps v l) v) (settle ps v l).invoices
  unfolding settle
  settle-status = rw settle-balance (set_status_self v.pk _ l.invoices)

  pub settle-status_others :
      (i : ℕ) (s : InvoiceStatus)
      → v.pk ≢ i
      → StatusIs i s l.invoices
      → StatusIs i s (settle ps v l).invoices
  unfolding settle
  settle-status_others i s other h = set_status_other i v.pk s _ l.invoices other h

  pub settle-IsFunded :
      (funds : ℕ → ℕ)
      → All (λ p. p.amount ≤ funds p.pk) ps
      → IsFunded funds l.allocations
      → IsFunded funds (settle ps v l).allocations
  unfolding settle
  settle-IsFunded funds covers h =
      pay_invoice_inv l.reversals v.pk (λ next. IsFunded funds next.1)
        (λ p. IsLive l.reversals p × (p.amount ≤ funds p.pk))
        (λ p r al q k. pay-IsFunded l.reversals p v.pk r al q.0 funds q.1 k) ps (balance l v)
        l.allocations (All-zip (IsLive l.reversals) (λ p. p.amount ≤ funds p.pk) ps live covers) h

  pub settle-positive :
      All (λ a. 0 < a.amount) l.allocations → All (λ a. 0 < a.amount) (settle ps v l).allocations
  unfolding settle
  settle-positive =
      pay_invoice_inv l.reversals v.pk (λ next. All (λ a. 0 < a.amount) next.1) (IsLive l.reversals)
        (λ p r al q h. pay-positive l.reversals p v.pk r al q h) ps (balance l v) l.allocations live

  pub settle-grows : (k : ℕ) → allocated l.allocations k ≤ allocated (settle ps v l).allocations k
  unfolding settle
  settle-grows k = pay_invoice-grows l.reversals v.pk ps (balance l v) l.allocations k live

  -- After its turn an invoice is paid, or the credit is spent.
  pub settle-exhausts :
      (pos_part (balance (settle ps v l) v) ≡ 0) ⊎ All (IsSpent (settle ps v l).allocations) ps
  unfolding settle
  settle-exhausts =
      rw settle-balance (pay_invoice-Exhausts l.reversals v.pk ps (balance l v) l.allocations live)

  -- Spent payments move nothing.
  pub settle_spent : All (IsSpent l.allocations) ps → (settle ps v l).allocations ≡ l.allocations
  unfolding settle
  settle_spent spent =
      ap (λ (r : ℤ × List Allocation). r.1)
        (pay_invoice_spent l.reversals v.pk ps (balance l v) l.allocations live spent)

  pub settle-balance_spent :
      All (IsSpent l.allocations) ps → (w : Invoice) → balance (settle ps v l) w ≡ balance l w
  unfolding settle balance
  settle-balance_spent spent w =
      rw (pay_invoice_spent l.reversals v.pk ps (balance l v) l.allocations live spent) refl
