-- ===== src/Billing/Invariant/Calls.antt =====
-- `receive_payment` and `reverse_payment` of billing/services.py keep the ledger's invariant.
use fireisp.Prelude.{
  ℕ, ◌<◌, ◌≡◌, refl, Option, List, [], ◌∷◌, map, arith, any, ◌&&◌, Bool-cases, inl, inr, ◌∙◌, ◌==◌,
}
use fireisp.Prelude.Sort.{All_of_keys, Distinct_of_keys}
use fireisp.Prelude.Text.{Text}
use fireisp.Store.{
  Method, Invoice, Payment, Allocation, PaymentReversal, Ledger, with_ledger, modify, Env,
}
use fireisp.Store.Preserves.{Preserves, Preserves-modify}
use fireisp.Billing.Money.{DecimalInput}
use fireisp.Billing.Allocate.Settle.{set_status-pks}
use fireisp.Billing.Allocate.Laws.{received}
use fireisp.Billing.Account.{is_void}
use fireisp.Billing.Invariant.{IsConsistent, Consistent, consistent_rules}
use fireisp.Billing.Payments.{
  record_payment, book_payment, receive_payment, reopen, reopen_all, record_reversal,
  reverse_payment,
}

-- A new payment can only add to what was received.
payment-IsConsistent :
    (p : Payment) (l : Ledger) (n : ℕ)
    → IsConsistent l n
    → IsConsistent (record l { payments = p ∷ l.payments }) n
unfolding received
payment-IsConsistent p l n c = record {
  sound = record {
    distinct = c.sound.distinct;
    funded = λ k. omega (arith, c.sound.funded k);
    positive = c.sound.positive;
  };
  issued = c.issued;
}

record_payment-Consistent :
    (env : Env) (p : Payment) (actor : Option ℕ) → Preserves Consistent (record_payment env p actor)
unfolding record_payment
record_payment-Consistent env p actor =
    let entered : Preserves Consistent
        (modify (with_ledger λ l. record l { payments = p ∷ l.payments })) =
      Preserves-modify _ (λ db c. payment-IsConsistent p db.ledger db.next_pk c) in
    search consistent_rules

book_payment-Consistent :
    (env : Env) (customer amount : ℕ) (method : Method) (actor : Option ℕ) (key reference : Text)
    (paid_at : Option ℕ)
    → Preserves Consistent (book_payment env customer amount method actor key reference paid_at)
unfolding book_payment
book_payment-Consistent env customer amount method actor key reference paid_at =
    search (consistent_rules, record_payment-Consistent) depth 9

-- A charge keeps the ledger consistent.
pub receive_payment-Consistent :
    (env : Env) (customer : ℕ) (value : DecimalInput) (method_text : Text) (actor : Option ℕ)
    (key reference : Text) (paid_at : Option ℕ)
    → Preserves Consistent
        (receive_payment env customer value method_text actor key reference paid_at)
unfolding receive_payment
receive_payment-Consistent env customer value method_text actor key reference paid_at =
    search (consistent_rules, book_payment-Consistent) depth 9

reopen_all-pks :
    (al : List Allocation) (vs : List Invoice)
    → map (λ v. v.pk) (reopen_all al vs) ≡ map (λ v. v.pk) vs
unfolding reopen_all reopen
reopen_all-pks [] vs = refl
reopen_all-pks (a ∷ al) vs =
    reopen_all-pks al _ ∙ (elim (Bool-cases (any (λ v. v.pk == a.invoice && is_void v.status) vs)) [
      | inl locked ↦ rw locked refl
      | inr free ↦ rw free (set_status-pks a.invoice _ vs)
    ])

-- A reversal takes no money from an allocation, and leaves every key in place.
reversal-IsConsistent :
    (r : PaymentReversal) (al : List Allocation) (l : Ledger) (n : ℕ)
    → IsConsistent l n
    → IsConsistent (record l { reversals = r ∷ l.reversals; invoices = reopen_all al l.invoices }) n
reversal-IsConsistent r al l n c = record {
  sound = record {
    distinct =
        Distinct_of_keys (λ v. v.pk) (reopen_all al l.invoices) l.invoices
          (reopen_all-pks al l.invoices) c.sound.distinct;
    funded = c.sound.funded;
    positive = c.sound.positive;
  };
  issued =
      All_of_keys (λ v. v.pk) (λ k. k < n) (reopen_all al l.invoices) l.invoices
        (reopen_all-pks al l.invoices) c.issued;
}

record_reversal-Consistent :
    (env : Env) (p : Payment) (r : PaymentReversal) (actor : ℕ)
    → Preserves Consistent (record_reversal env p r actor)
unfolding record_reversal
record_reversal-Consistent env p r actor =
    let reversed : (rows : List Allocation)
        → Preserves Consistent (
            modify (
              with_ledger λ l. record l {
                reversals = r ∷ l.reversals;
                invoices = reopen_all rows l.invoices;
              })) =
      λ rows. Preserves-modify _ (λ db c. reversal-IsConsistent r rows db.ledger db.next_pk c) in
    search consistent_rules depth 9

-- A reversal keeps the ledger consistent.
pub reverse_payment-Consistent :
    (env : Env) (payment : Payment) (actor : ℕ) (reason : Text)
    → Preserves Consistent (reverse_payment env payment actor reason)
unfolding reverse_payment
reverse_payment-Consistent env payment actor reason =
    search (consistent_rules, record_reversal-Consistent) depth 12
