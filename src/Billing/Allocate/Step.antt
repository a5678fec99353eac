-- ===== src/Billing/Allocate/Step.antt =====
-- One step of the allocation: a payment put to an invoice by `_allocate_customer`.
use fireisp.Prelude.{
  ℕ, ◌+◌, ◌-◌, ◌≤◌, ◌<◌, ◌≡◌, ◌≢◌, refl, true, false, ◌⊎◌, inl, inr, List, ◌∷◌, arith, All, ==_refl,
}
use fireisp.Prelude.Int.{
  ℤ, pos, negsuc, pos_part, neg_part, sub_ℕ, ◌-ℤ◌, leb_ℤ, is_positive, min_ℤ, sub_ℕ_parts, one_sign,
}
use fireisp.Store.{Payment, Allocation, PaymentReversal}
use fireisp.Billing.Balances.{is_reversed, allocated, paid_amount, available}
use fireisp.Billing.Allocate.{pay}

-- What a step does, when it moves money and when it does not.
pub record Spends (p : Payment) (i : ℕ) (r : ℤ) (al : List Allocation) (next : ℤ × List Allocation)
    : Type 0 where
  pub amount : ℕ
  pub positive : 0 < amount
  pub within_balance : amount ≤ pos_part r
  pub within_payment : allocated al p.pk + amount ≤ p.amount
  pub rest : next.0 ≡ pos (pos_part r - amount)
  pub rows : next.1 ≡ record { payment = p.pk; invoice = i; amount = amount } ∷ al
  pub exhausts : (amount ≡ pos_part r) ⊎ (p.amount ≡ allocated al p.pk + amount)

-- The least of two amounts: what moves, and when nothing does.
least_cases :
    (r a : ℤ)
    → let applied = min_ℤ r a in
      ((is_positive applied ≡ true)
        × (0 < pos_part applied)
        × (r -ℤ applied ≡ pos (pos_part r - pos_part applied))
        × (pos_part applied ≤ pos_part r)
        × (pos_part applied ≤ pos_part a)
        × ((pos_part applied ≡ pos_part r) ⊎ (pos_part applied ≡ pos_part a)))
      ⊎ ((is_positive applied ≡ false) × ((pos_part r ≡ 0) ⊎ (pos_part a ≡ 0)))
unfolding min_ℤ is_positive leb_ℤ ◌-ℤ◌ sub_ℕ
least_cases (pos r) (pos a) = ground arith
least_cases (pos r) (negsuc a) = ground arith
least_cases (negsuc r) (pos a) = ground arith
least_cases (negsuc r) (negsuc a) = ground arith

module _ (rs : List PaymentReversal) (p : Payment) (i : ℕ) (al : List Allocation) where
  pub available_parts :
      is_reversed rs p.pk ≡ false → pos_part (available rs al p) ≡ p.amount - allocated al p.pk
  unfolding available
  available_parts live = rw live (sub_ℕ_parts p.amount (allocated al p.pk)).0

  pub pay_cases :
      (r : ℤ)
      → is_reversed rs p.pk ≡ false
      → let next = pay rs p i r al in
        Spends p i r al next
        ⊎ ((next ≡ (r, al)) × ((pos_part r ≡ 0) ⊎ (p.amount ≤ allocated al p.pk)))
  unfolding pay
  pay_cases r live = elim (least_cases r (available rs al p)) [
    | inl (moves, positive, rest, by_balance, by_payment, exhausts) ↦ inl (
        rw moves record {
          amount = pos_part (min_ℤ r (available rs al p));
          positive = positive;
          within_balance = by_balance;
          within_payment = omega (arith, available_parts live);
          rest = rest;
          rows = refl;
          exhausts = omega (arith, available_parts live, exhausts);
        })
    | inr (still, why) ↦ inr (rw still, omega (arith, available_parts live, why))
  ]

-- The part of the balance that is still owed, and what is overpaid.
abbrev pub Owes : List PaymentReversal → ℕ → ℕ → ℕ → ℤ × List Allocation → Type 0
Owes rs i owed over (r, al) = (paid_amount rs al i + pos_part r ≡ owed) × (neg_part r ≡ over)

-- No payment is spent beyond `funds`.
abbrev pub IsFunded : (ℕ → ℕ) → List Allocation → Type 0
IsFunded funds al = (k : ℕ) → allocated al k ≤ funds k

module _ (rs : List PaymentReversal) (p : Payment) (i : ℕ) (r : ℤ) (al : List Allocation)
    (live : is_reversed rs p.pk ≡ false) where
  pub pay-Owes :
      {owed over : ℕ} → Owes rs i owed over (r, al) → Owes rs i owed over (pay rs p i r al)
  unfolding paid_amount
  pay-Owes h = elim (pay_cases rs p i al r live) [
    | inl s ↦
        rw (s.rest, s.rows, ==_refl i, live)
          (omega (arith, one_sign r, s.positive, s.within_balance, h))
    | inr (same, _) ↦ rw same h
  ]

  pub pay-paid_others : (j : ℕ) → j ≢ i → paid_amount rs (pay rs p i r al).1 j ≡ paid_amount rs al j
  unfolding paid_amount
  pay-paid_others j other = elim (pay_cases rs p i al r live) [
    | inl s ↦ rw s.rows (ground arith)
    | inr (same, _) ↦ rw same refl
  ]

  pub pay-IsFunded :
      (funds : ℕ → ℕ)
      → p.amount ≤ funds p.pk
      → IsFunded funds al
      → IsFunded funds (pay rs p i r al).1
  unfolding allocated
  pay-IsFunded funds covers h k = elim (pay_cases rs p i al r live) [
    | inl s ↦ rw s.rows (ground (arith, h k, s.within_payment, covers))
    | inr (same, _) ↦ rw same (h k)
  ]

  pub pay-grows : (k : ℕ) → allocated al k ≤ allocated (pay rs p i r al).1 k
  unfolding allocated
  pay-grows k = elim (pay_cases rs p i al r live) [
    | inl s ↦ rw s.rows (ground arith)
    | inr (same, _) ↦ rw same (omega arith)
  ]

  pub pay-positive : All (λ a. 0 < a.amount) al → All (λ a. 0 < a.amount) (pay rs p i r al).1
  pay-positive h = elim (pay_cases rs p i al r live) [
    | inl s ↦ rw s.rows (s.positive, h)
    | inr (same, _) ↦ rw same h
  ]

  -- After the step the invoice is paid or the payment is spent.
  pub pay-exhausts :
      (pos_part (pay rs p i r al).0 ≡ 0) ⊎ (p.amount ≤ allocated (pay rs p i r al).1 p.pk)
  unfolding allocated
  pay-exhausts = elim (pay_cases rs p i al r live) [
    | inl s ↦ rw (s.rest, s.rows, ==_refl p.pk) (omega (arith, s.exhausts, s.within_balance))
    | inr (same, why) ↦ rw same why
  ]

  -- A spent payment pays nothing.
  pub pay_spent : p.amount ≤ allocated al p.pk → pay rs p i r al ≡ (r, al)
  pay_spent spent = elim (pay_cases rs p i al r live) [
    | inl s ↦ absurd (omega (arith, s.positive, s.within_payment))
    | inr (same, _) ↦ same
  ]
