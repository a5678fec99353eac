-- ===== src/Billing/Cash.antt =====
-- `close_cash` of billing/services.py: a cashier's movements since the last closure are counted.
pub mod Laws
use fireisp.Prelude.{
  ℕ, ◌+◌, ◌*◌, ◌/◌, ◌%◌, ◌^◌, Bool, true, false, not, ◌&&◌, Option, none, some, List, [], ◌∷◌, ◌++◌,
  map, ◌==◌, if◌then◌else◌, any, select,
}
use fireisp.Prelude.Int.{ℤ, pos, sub_ℕ, ◌-ℤ◌}
use fireisp.Prelude.Text.{codes}
use fireisp.Store.{
  Method, cash, Payment, PaymentReversal, Refund, CashClosure, CashClosureItem, Movement, Ledger,
  CashDesk, Result, ok, err, M, ◌>>=◌, ◌>>◌, done, pure, raise, gets, modify, lift, fresh, raise_if,
  with_desk, value_error, bad_count, nothing_to_close, Env,
}
use fireisp.Core.{audit, actor_lock}
use fireisp.Billing.Money.{DecimalInput, unreadable, not_finite, finite}

-- The counted cash: no fraction of a cent, and zero is allowed.
unfoldable pub read_count : DecimalInput → Result ℕ
read_count unreadable = err value_error
read_count not_finite = err bad_count
read_count (finite negative digits places) =
    if negative && not (digits == 0)
    then err bad_count
    else if not (digits * 100 % 10 ^ places == 0)
    then err bad_count
    else ok (digits * 100 / 10 ^ places)

abbrev pub is_cash : Method → Bool
is_cash cash = true
is_cash _ = false

abbrev pub same_movement : Movement → Movement → Bool
same_movement (Movement.payment a) (Movement.payment b) = a == b
same_movement (Movement.reversal a) (Movement.reversal b) = a == b
same_movement (Movement.refund a) (Movement.refund b) = a == b
same_movement _ _ = false

-- `closure_item__isnull=True` is the negation.
unfoldable pub is_closed : CashDesk → Movement → Bool
is_closed d m = any (λ i. same_movement i.movement m) d.items

abbrev pub by_actor : Option ℕ → ℕ → Bool
by_actor none actor = false
by_actor (some k) actor = k == actor

unfoldable pub pending_payments : CashDesk → Ledger → ℕ → List Payment
pending_payments d l actor =
    select
      (λ p.
        by_actor p.created_by actor
        && is_cash p.method
        && not (is_closed d (Movement.payment p.pk)))
      l.payments

-- `payment__method='cash'`
unfoldable pub reverses_cash : Ledger → PaymentReversal → Bool
reverses_cash l r = any (λ p. p.pk == r.payment && is_cash p.method) l.payments

unfoldable pub pending_reversals : CashDesk → Ledger → ℕ → List PaymentReversal
pending_reversals d l actor =
    select
      (λ r.
        r.created_by == actor && reverses_cash l r && not (is_closed d (Movement.reversal r.pk)))
      l.reversals

unfoldable pub pending_refunds : CashDesk → Ledger → ℕ → List Refund
pending_refunds d l actor =
    select
      (λ r. r.created_by == actor && is_cash r.method && not (is_closed d (Movement.refund r.pk)))
      l.refunds

unfoldable pub sum_of {ℓ} : {A : Type ℓ} → (A → ℕ) → List A → ℕ
sum_of f [] = 0
sum_of f (x ∷ xs) = f x + sum_of f xs

-- `reversal.payment.amount`
unfoldable pub amount_reversed : Ledger → PaymentReversal → ℕ
amount_reversed l r = go l.payments
  where
    go : List Payment → ℕ
    go [] = 0
    go (p ∷ ps) = if p.pk == r.payment then p.amount else go ps

-- The movements of a cashier that no closure holds.
unfoldable pub movements : CashDesk → Ledger → ℕ → List Movement
movements d l actor =
    map (λ p. Movement.payment p.pk) (pending_payments d l actor)
    ++ map (λ r. Movement.reversal r.pk) (pending_reversals d l actor)
    ++ map (λ r. Movement.refund r.pk) (pending_refunds d l actor)

unfoldable pub expected_cash : CashDesk → Ledger → ℕ → ℤ
expected_cash d l actor = sub_ℕ (sum_of (λ p. p.amount) (pending_payments d l actor)) (
    sum_of (amount_reversed l) (pending_reversals d l actor)
    + sum_of (λ r. r.amount) (pending_refunds d l actor))

abbrev pub is_nil {ℓ} : {A : Type ℓ} → List A → Bool
is_nil [] = true
is_nil (_ ∷ _) = false

unfoldable pub closure_items : ℕ → List Movement → List CashClosureItem
closure_items closure ms = map (λ m. record { closure = closure; movement = m }) ms

unfoldable pub close_cash : Env → ℕ → DecimalInput → M CashClosure
close_cash env actor value = do
  actor_lock (some actor)
  counted ← lift (read_count value)
  pending ← gets (λ db. movements db.desk db.ledger actor)
  raise_if (is_nil pending) nothing_to_close
  expected ← gets (λ db. expected_cash db.desk db.ledger actor)
  pk ← fresh
  let c =
      let r : CashClosure = record {
        pk = pk;
        cashier = actor;
        closed_at = env.now;
        expected = expected;
        counted = counted;
        difference = pos counted -ℤ expected;
      } in
      r
  modify (
      with_desk
        λ d. record d { closures = c ∷ d.closures; items = closure_items pk pending ++ d.items })
  audit env (some actor) (codes "billing.cash.closed") pk
  pure c
