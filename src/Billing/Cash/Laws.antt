-- ===== src/Billing/Cash/Laws.antt =====
-- Laws of `close_cash` of billing/services.py: no movement is closed twice.
use fireisp.Prelude.{
  ℕ, ◌≡◌, refl, sym, ap, inl, inr, Bool, true, false, some, List, [], ◌∷◌, ◌++◌, map, arith, any,
  select, All, All-map, ==_refl, Bool-cases,
}
use mathlib.Core.Path.{subst}
use mathlib.Core.List.{append_assoc, append-nil}
use fireisp.Store.{
  CashClosure, CashClosureItem, Movement, Ledger, CashDesk, Db, ok, err, nothing_to_close, ◌>>=◌,
  Env,
}
use fireisp.Store.Ensures.{Ensures, Ensures-eq, Result-cases}
use fireisp.Core.{audit, actor_lock}
use fireisp.Core.Reads.{actor_lock_cases, actor_lock-users}
use fireisp.Billing.Money.{DecimalInput}
use fireisp.Billing.Cash.{
  read_count, same_movement, is_closed, pending_payments, pending_reversals, pending_refunds,
  movements, is_nil, closure_items, close_cash,
}

same_movement_refl : (m : Movement) → same_movement m m ≡ true
same_movement_refl (Movement.payment k) = ==_refl k
same_movement_refl (Movement.reversal k) = ==_refl k
same_movement_refl (Movement.refund k) = ==_refl k

-- The desk with some movements closed.
abbrev closing : ℕ → CashClosure → List Movement → CashDesk → CashDesk
closing pk c ms d = record { closures = c ∷ d.closures; items = closure_items pk ms ++ d.items }

module _ (pk : ℕ) (d : CashDesk) where
  abbrev items_of : List Movement → List CashClosureItem
  items_of ms = closure_items pk ms ++ d.items

  abbrev in_items : List Movement → Movement → Bool
  in_items ms m = any (λ i. same_movement i.movement m) (items_of ms)

  in_items_self : (m : Movement) (ms : List Movement) → in_items (m ∷ ms) m ≡ true
  unfolding closure_items
  in_items_self m ms = rw (same_movement_refl m) refl

  in_items-cons :
      (m n : Movement) (ms : List Movement) → in_items ms m ≡ true → in_items (n ∷ ms) m ≡ true
  unfolding closure_items
  in_items-cons m n ms h = ground (arith, h)

  in_items-append :
      (m : Movement) (ms ns : List Movement) → in_items ns m ≡ true → in_items (ms ++ ns) m ≡ true
  in_items-append m [] ns h = h
  in_items-append m (n ∷ ms) ns h = in_items-cons m n (ms ++ ns) (in_items-append m ms ns h)

  -- The rows that a query selects are closed with whatever comes behind them.
  selected_closed {ℓ} :
      {A : Type ℓ} (q : A → Bool) (f : A → Movement) (xs : List A) (rest : List Movement)
      → All (λ x. q x ≡ true → in_items (map f (select q xs) ++ rest) (f x) ≡ true) xs
  selected_closed {A} q f [] rest = tt
  selected_closed {A} q f (x ∷ xs) rest =
      let behind = selected_closed q f xs rest in
      let closed = λ (sel : List A) (y : A). in_items (map f sel ++ rest) (f y) ≡ true in
      elim (Bool-cases (q x)) [
        | inl taken ↦
            let same : x ∷ select q xs ≡ select q (x ∷ xs) = rw taken refl in
            (
              λ _.
                  subst (λ sel. closed sel x) same
                    (in_items_self (f x) (map f (select q xs) ++ rest)),
              All-map _ _ xs
                  (λ y h e.
                    subst (λ sel. closed sel y) same
                      (in_items-cons (f y) (f x) (map f (select q xs) ++ rest) (h e)))
                  behind,
            )
        | inr left ↦
            let same : select q xs ≡ select q (x ∷ xs) = rw left refl in
            (λ e. cc, All-map _ _ xs (λ y h e. subst (λ sel. closed sel y) same (h e)) behind)
      ]

-- No row passes a test that every row fails.
select_none {ℓ} :
    {A : Type ℓ} (q : A → Bool) (xs : List A) → All (λ x. q x ≡ false) xs → select q xs ≡ []
select_none q [] h = refl
select_none q (x ∷ xs) h = rw h.0 (select_none q xs h.1)

module _ (pk : ℕ) (c : CashClosure) (d : CashDesk) (l : Ledger) (actor : ℕ) where
  abbrev closed_desk : CashDesk
  closed_desk = closing pk c (movements d l actor) d

  still_closed :
      (ms : List Movement) (m : Movement)
      → is_closed d m ≡ true
      → is_closed (closing pk c ms d) m ≡ true
  unfolding is_closed
  still_closed [] m h = unfold closure_items in h
  still_closed (n ∷ ms) m h = in_items-cons pk d m n ms (still_closed ms m h)

  -- A query whose rows were all among the movements finds none of them any more.
  pending_none {ℓ} :
      {A : Type ℓ} (q q' : A → Bool) (f : A → Movement) (xs : List A)
      (before behind : List Movement)
      → movements d l actor ≡ before ++ (map f (select q xs) ++ behind)
      → ((x : A) → (q x ≡ true → is_closed closed_desk (f x) ≡ true) → q' x ≡ false)
      → select q' xs ≡ []
  unfolding is_closed
  pending_none q q' f xs before behind e covers = select_none q' xs (
      All-map _ _ xs
        (λ x h. covers x λ t.
          subst (λ ms. in_items pk d ms (f x) ≡ true) (sym e)
            (in_items-append pk d (f x) before (map f (select q xs) ++ behind) (h t)))
        (selected_closed pk d q f xs behind))

  -- After the closure nothing is pending for the cashier.
  movements_none : movements closed_desk l actor ≡ []
  unfolding movements pending_payments pending_reversals pending_refunds
  movements_none =
      let taken = map (λ p. Movement.payment p.pk) (pending_payments d l actor) in
      let undone = map (λ r. Movement.reversal r.pk) (pending_reversals d l actor) in
      let given = map (λ r. Movement.refund r.pk) (pending_refunds d l actor) in
      let payments : pending_payments closed_desk l actor ≡ [] =
        pending_none _ _ (λ p. Movement.payment p.pk) l.payments [] (undone ++ given)
          (append_assoc taken undone given)
          (λ p h. ground (arith, h, still_closed (movements d l actor) (Movement.payment p.pk))) in
      let reversals : pending_reversals closed_desk l actor ≡ [] =
        pending_none _ _ (λ r. Movement.reversal r.pk) l.reversals taken given
          (append_assoc taken undone given)
          (λ r h. ground (arith, h, still_closed (movements d l actor) (Movement.reversal r.pk))) in
      let refunds : pending_refunds closed_desk l actor ≡ [] =
        pending_none _ _ (λ r. Movement.refund r.pk) l.refunds (taken ++ undone) []
          (ap (λ ms. taken ++ undone ++ ms) (sym (append-nil given)))
          (λ r h. ground (arith, h, still_closed (movements d l actor) (Movement.refund r.pk))) in
      rw (payments, reversals, refunds) refl

module _ (actor : ℕ) where
  -- What a closure leaves: nothing is pending, and the cashier is still a user.
  abbrev Closes : CashClosure → Db → Type 0
  Closes _ db =
      (movements db.desk db.ledger actor ≡ []) × (actor_lock (some actor) db ≡ ok (tt, db))

  close_cash-Closes :
      (env : Env) (value : DecimalInput) (db : Db) → Ensures Closes (close_cash env actor value db)
  unfolding close_cash audit
  close_cash-Closes env value db = elim (actor_lock_cases (some actor) db) [
    | inr (e, bad) ↦ rw (◌>>=◌, bad) tt
    | inl locked ↦ elim (Result-cases (read_count value)) [
      | inr (e, bad) ↦ rw (◌>>=◌, locked, bad) tt
      | inl (n, read) ↦ elim (Bool-cases (is_nil (movements db.desk db.ledger actor))) [
        | inl nothing ↦ rw (◌>>=◌, locked, read, nothing) tt
        | inr something ↦
            rw (◌>>=◌, locked, read, something)
              (
                movements_none db.next_pk _ db.desk db.ledger actor,
                actor_lock-users (some actor) db _ refl locked,
              )
      ]
    ]
  ]

  none_pending :
      (env : Env) (value : DecimalInput) (n : ℕ) (c : CashClosure) (db : Db)
      → Closes c db
      → read_count value ≡ ok n
      → close_cash env actor value db ≡ err nothing_to_close
  unfolding close_cash
  none_pending env value n c db (nothing, locked) read = rw (◌>>=◌, locked, read, nothing) refl

-- After a successful close_cash, a second one of the same cashier with no movement in between is
-- refused with nothing to close, whatever readable count is given and at any time.
pub close_cash_again :
    (env env' : Env) (actor : ℕ) (value value' : DecimalInput) (n : ℕ) (c : CashClosure)
    (db db' : Db)
    → close_cash env actor value db ≡ ok (c, db')
    → read_count value' ≡ ok n
    → close_cash env' actor value' db' ≡ err nothing_to_close
close_cash_again env env' actor value value' n c db db' run read =
    none_pending actor env' value' n c db'
      (Ensures-eq (Closes actor) (close_cash-Closes actor env value db) run) read
