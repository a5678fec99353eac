-- ===== src/Billing/Allocate/Loop.antt =====
-- The inner loop of `_allocate_customer`: the payments of a customer put to one invoice.
use fireisp.Prelude.{
  ℕ, ◌≤◌, ◌≡◌, ◌⊎◌, refl, sym, inl, inr, false, List, [], ◌∷◌, arith, All, Bool-cases,
}
use mathlib.Core.Path.{subst}
use fireisp.Prelude.Int.{ℤ, pos, pos_part, leb_ℤ, leb_zero, leb_zero_of}
use fireisp.Store.{Payment, Allocation, PaymentReversal}
use fireisp.Billing.Balances.{is_reversed, allocated}
use fireisp.Billing.Allocate.{pay, pay_invoice}
use fireisp.Billing.Allocate.Step.{pay-grows, pay-exhausts, pay_spent}

abbrev pub IsLive : List PaymentReversal → Payment → Type 0
IsLive rs p = is_reversed rs p.pk ≡ false

-- Nothing of the payment is left.
abbrev pub IsSpent : List Allocation → Payment → Type 0
IsSpent al p = p.amount ≤ allocated al p.pk

module _ (rs : List PaymentReversal) (i : ℕ) where
  -- What every step keeps, the loop keeps.
  pub pay_invoice_inv :
      (P : ℤ × List Allocation → Type 0) (Q : Payment → Type 0)
      → ((p : Payment) (r : ℤ) (al : List Allocation) → Q p → P (r, al) → P (pay rs p i r al))
      → (ps : List Payment) (r : ℤ) (al : List Allocation) → All Q ps
      → P (r, al)
      → P (pay_invoice rs ps i r al)
  unfolding pay_invoice
  pay_invoice_inv P Q keep [] r al q h = h
  pay_invoice_inv P Q keep (p ∷ ps) r al q h =
      let next = pay rs p i r al in
      let kept : P next = keep p r al q.0 h in
      elim (Bool-cases (leb_ℤ next.0 (pos 0))) [
        | inl stop ↦ rw stop kept
        | inr on ↦ rw on (pay_invoice_inv P Q keep ps next.0 next.1 q.1 kept)
      ]

  pub pay_invoice-grows :
      (ps : List Payment) (r : ℤ) (al : List Allocation) (k : ℕ)
      → All (IsLive rs) ps
      → allocated al k ≤ allocated (pay_invoice rs ps i r al).1 k
  pay_invoice-grows ps r al k live =
      pay_invoice_inv (λ next. allocated al k ≤ allocated next.1 k) (IsLive rs)
        (λ p r' al' q h. omega (arith, pay-grows rs p i r' al' q k)) ps r al live (omega arith)

  -- The loop past a step at which something is still owed.
  pay_invoice_on :
      (p : Payment) (ps : List Payment) (r : ℤ) (al : List Allocation)
      → let next = pay rs p i r al in
        leb_ℤ next.0 (pos 0) ≡ false
        → pay_invoice rs (p ∷ ps) i r al ≡ pay_invoice rs ps i next.0 next.1
  unfolding pay_invoice
  pay_invoice_on p ps r al on = rw on

  abbrev Exhausts : List Payment → ℤ × List Allocation → Type 0
  Exhausts ps (r, al) = (pos_part r ≡ 0) ⊎ All (IsSpent al) ps

  Exhausts-cons :
      (p : Payment) (ps : List Payment) (r : ℤ) (al : List Allocation)
      → p.amount ≤ allocated al p.pk
      → Exhausts ps (r, al)
      → Exhausts (p ∷ ps) (r, al)
  Exhausts-cons p ps r al gone (inl settled) = inl settled
  Exhausts-cons p ps r al gone (inr spent) = inr (gone, spent)

  -- After the loop the invoice is paid or every payment is spent.
  pub pay_invoice-Exhausts :
      (ps : List Payment) (r : ℤ) (al : List Allocation)
      → All (IsLive rs) ps
      → Exhausts ps (pay_invoice rs ps i r al)
  unfolding pay_invoice
  pay_invoice-Exhausts [] r al live = inr tt
  pay_invoice-Exhausts (p ∷ ps) r al live =
      let next = pay rs p i r al in
      let last = pay_invoice rs ps i next.0 next.1 in
      elim (Bool-cases (leb_ℤ next.0 (pos 0))) [
        | inl stop ↦ rw stop (inl (leb_zero next.0 stop))
        | inr on ↦ elim (pay-exhausts rs p i r al live.0) [
          | inl done ↦ cc (leb_zero_of next.0 done)
          | inr gone ↦ subst (Exhausts (p ∷ ps)) (sym (pay_invoice_on p ps r al on)) (
              Exhausts-cons p ps last.0 last.1
                (omega (arith, gone, pay_invoice-grows ps next.0 next.1 p.pk live.1))
                (pay_invoice-Exhausts ps next.0 next.1 live.1))
        ]
      ]

  -- Spent payments pay nothing.
  pub pay_invoice_spent :
      (ps : List Payment) (r : ℤ) (al : List Allocation)
      → All (IsLive rs) ps
      → All (IsSpent al) ps
      → pay_invoice rs ps i r al ≡ (r, al)
  unfolding pay_invoice
  pay_invoice_spent [] r al live spent = refl
  pay_invoice_spent (p ∷ ps) r al live spent =
      elim (Bool-cases (leb_ℤ (pay rs p i r al).0 (pos 0))) [
        | inl stop ↦ rw stop (pay_spent rs p i r al live.0 spent.0)
        | inr on ↦
            rw (on, pay_spent rs p i r al live.0 spent.0) (pay_invoice_spent ps r al live.1 spent.1)
      ]
