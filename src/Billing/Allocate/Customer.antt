-- ===== src/Billing/Allocate/Customer.antt =====
-- What `_allocate_customer` achieves for the open invoices of a customer.
use fireisp.Prelude.{
  ℕ, ◌≤◌, ◌<◌, ◌≡◌, ◌≢◌, ◌⊎◌, refl, sym, map, ap, ◌∙◌, inl, inr, List, [], ◌∷◌, arith, All, All-map,
  All-zip_with,
}
use fireisp.Prelude.Int.{pos_part, neg_part}
use fireisp.Prelude.Sort.{Distinct}
use fireisp.Store.{Invoice, InvoiceStatus, Payment, Ledger}
use fireisp.Billing.Balances.{allocated, balance}
use fireisp.Billing.Allocate.{settle, settle_all}
use fireisp.Billing.Allocate.Step.{IsFunded}
use fireisp.Billing.Allocate.Loop.{IsLive, IsSpent}
use fireisp.Billing.Allocate.Settle.{
  StatusIs, set_status-pks, settled_status, settle-balance_others, settle-overpaid, settle-status,
  settle-status_others, settle-IsFunded, settle-positive, settle-grows, settle-exhausts,
  settle_spent, settle-balance_spent,
}

-- Once an invoice is left owing, nothing goes to those behind it.
abbrev pub OldestFirst : Ledger → Ledger → List Invoice → Type 0
OldestFirst before after [] = Unit
OldestFirst before after (v ∷ vs) =
    (0 < pos_part (balance after v) → All (λ w. balance after w ≡ balance before w) vs)
    × OldestFirst before after vs

module _ (ps : List Payment) where
  -- The loop writes allocations and the status of invoices.
  pub settle_all-kept :
      (vs : List Invoice) (l : Ledger)
      → let l' = settle_all ps vs l in
        (l'.payments ≡ l.payments)
        × (l'.reversals ≡ l.reversals)
        × (l'.memos ≡ l.memos)
        × (l'.refunds ≡ l.refunds)
        × (map (λ v. v.pk) l'.invoices ≡ map (λ v. v.pk) l.invoices)
  unfolding settle_all settle
  settle_all-kept [] l = (refl, refl, refl, refl, refl)
  settle_all-kept (v ∷ vs) l =
      let (a, b, c, d, e) = settle_all-kept vs (settle ps v l) in
      (a, b, c, d, e ∙ set_status-pks v.pk _ l.invoices)

  settle_all-balance_others :
      (vs : List Invoice) (l : Ledger) (w : Invoice)
      → All (IsLive l.reversals) ps
      → All (λ v. v.pk ≢ w.pk) vs
      → balance (settle_all ps vs l) w ≡ balance l w
  unfolding settle_all
  settle_all-balance_others [] l w live other = refl
  settle_all-balance_others (v ∷ vs) l w live other =
      settle_all-balance_others vs (settle ps v l) w (unfold settle in live) other.1
      ∙ settle-balance_others ps v l live w (λ e. other.0 (sym e))

  -- The invoices behind `v` still stand as they did before its turn.
  others_unchanged :
      (vs : List Invoice) (v : Invoice) (l : Ledger)
      → All (IsLive l.reversals) ps
      → All (λ w. w.pk ≢ v.pk) vs
      → All (λ w. balance (settle ps v l) w ≡ balance l w) vs
  others_unchanged vs v l live other =
      All-map (λ w. w.pk ≢ v.pk) (λ w. balance (settle ps v l) w ≡ balance l w) vs
        (λ w ne. settle-balance_others ps v l live w ne) other

  pub settle_all_spent :
      (vs : List Invoice) (l : Ledger)
      → All (IsLive l.reversals) ps
      → All (IsSpent l.allocations) ps
      → (settle_all ps vs l).allocations ≡ l.allocations
  unfolding settle_all settle
  settle_all_spent [] l live spent = refl
  settle_all_spent (v ∷ vs) l live spent =
      let same = settle_spent ps v l live spent in
      settle_all_spent vs (settle ps v l) live (rw same spent) ∙ same

  pub settle_all-grows :
      (vs : List Invoice) (l : Ledger) (k : ℕ)
      → All (IsLive l.reversals) ps
      → allocated l.allocations k ≤ allocated (settle_all ps vs l).allocations k
  unfolding settle_all settle
  settle_all-grows [] l k live = omega arith
  settle_all-grows (v ∷ vs) l k live =
      omega (arith, settle-grows ps v l live k, settle_all-grows vs (settle ps v l) k live)

  pub settle_all-overpaid :
      (vs : List Invoice) (l : Ledger)
      → All (IsLive l.reversals) ps
      → Distinct (λ v. v.pk) vs
      → All (λ v. neg_part (balance (settle_all ps vs l) v) ≡ neg_part (balance l v)) vs
  unfolding settle_all
  settle_all-overpaid [] l live d = tt
  settle_all-overpaid (v ∷ vs) l live d =
      let l' = settle ps v l in
      let live' : All (IsLive l'.reversals) ps = unfold settle in live in
      (
        ap neg_part (settle_all-balance_others vs l' v live' d.0) ∙ settle-overpaid ps v l live,
        All-zip_with _ _ _ vs (λ w e h. h ∙ ap neg_part e) (others_unchanged vs v l live d.0)
            (settle_all-overpaid vs l' live' d.1),
      )

  pub settle_all-status_others :
      (vs : List Invoice) (l : Ledger) (i : ℕ) (s : InvoiceStatus)
      → All (IsLive l.reversals) ps
      → All (λ v. v.pk ≢ i) vs
      → StatusIs i s l.invoices
      → StatusIs i s (settle_all ps vs l).invoices
  unfolding settle_all
  settle_all-status_others [] l i s live other h = h
  settle_all-status_others (v ∷ vs) l i s live other h =
      settle_all-status_others vs (settle ps v l) i s (unfold settle in live) other.1
        (settle-status_others ps v l live i s other.0 h)

  pub settle_all-status :
      (vs : List Invoice) (l : Ledger)
      → All (IsLive l.reversals) ps
      → Distinct (λ v. v.pk) vs
      → let l' = settle_all ps vs l in All (λ v. StatusIs v.pk (settled_status l' v) l'.invoices) vs
  unfolding settle_all
  settle_all-status [] l live d = tt
  settle_all-status (v ∷ vs) l live d =
      let l' = settle ps v l in
      let live' : All (IsLive l'.reversals) ps = unfold settle in live in
      (
        rw (settle_all-balance_others vs l' v live' d.0) (
            settle_all-status_others vs l' v.pk (settled_status l' v) live' d.0
              (settle-status ps v l live)),
        settle_all-status vs l' live' d.1,
      )

  pub settle_all-IsFunded :
      (vs : List Invoice) (l : Ledger) (funds : ℕ → ℕ)
      → All (IsLive l.reversals) ps
      → All (λ p. p.amount ≤ funds p.pk) ps
      → IsFunded funds l.allocations
      → IsFunded funds (settle_all ps vs l).allocations
  unfolding settle_all
  settle_all-IsFunded [] l funds live covers h = h
  settle_all-IsFunded (v ∷ vs) l funds live covers h =
      settle_all-IsFunded vs (settle ps v l) funds (unfold settle in live) covers
        (settle-IsFunded ps v l live funds covers h)

  pub settle_all-positive :
      (vs : List Invoice) (l : Ledger)
      → All (IsLive l.reversals) ps
      → All (λ a. 0 < a.amount) l.allocations
      → All (λ a. 0 < a.amount) (settle_all ps vs l).allocations
  unfolding settle_all
  settle_all-positive [] l live h = h
  settle_all-positive (v ∷ vs) l live h =
      settle_all-positive vs (settle ps v l) (unfold settle in live) (settle-positive ps v l live h)

  -- Spent credit stays spent.
  still-IsSpent :
      (vs : List Invoice) (l : Ledger)
      → All (IsLive l.reversals) ps
      → All (IsSpent l.allocations) ps
      → All (IsSpent (settle_all ps vs l).allocations) ps
  still-IsSpent vs l live spent = rw (settle_all_spent vs l live spent) spent

  -- Either every invoice is paid, or no credit is left.
  pub settle_all-exhausts :
      (vs : List Invoice) (l : Ledger)
      → All (IsLive l.reversals) ps
      → Distinct (λ v. v.pk) vs
      → let l' = settle_all ps vs l in
        All (λ v. pos_part (balance l' v) ≡ 0) vs ⊎ All (IsSpent l'.allocations) ps
  unfolding settle_all
  settle_all-exhausts [] l live d = inl tt
  settle_all-exhausts (v ∷ vs) l live d =
      let l' = settle ps v l in
      let live' : All (IsLive l'.reversals) ps = unfold settle in live in
      elim (settle-exhausts ps v l live) [
        | inr spent ↦ inr (still-IsSpent vs l' live' spent)
        | inl done ↦ elim (settle_all-exhausts vs l' live' d.1) [
          | inr spent ↦ inr spent
          | inl rest ↦ inl (ap pos_part (settle_all-balance_others vs l' v live' d.0) ∙ done, rest)
        ]
      ]

  OldestFirst-from :
      (vs : List Invoice) (a b c : Ledger)
      → All (λ w. balance b w ≡ balance a w) vs
      → OldestFirst b c vs
      → OldestFirst a c vs
  OldestFirst-from [] a b c same h = tt
  OldestFirst-from (v ∷ vs) a b c same h = (
    λ owing. All-zip_with _ _ _ vs (λ w e k. k ∙ e) same.1 (h.0 owing),
    OldestFirst-from vs a b c same.1 h.1,
  )

  settle_all-balance_spent :
      (vs : List Invoice) (l : Ledger)
      → All (IsLive l.reversals) ps
      → All (IsSpent l.allocations) ps
      → (w : Invoice) → balance (settle_all ps vs l) w ≡ balance l w
  unfolding settle_all
  settle_all-balance_spent [] l live spent w = refl
  settle_all-balance_spent (v ∷ vs) l live spent w =
      settle_all-balance_spent vs (settle ps v l) (unfold settle in live)
        (rw (settle_spent ps v l live spent) spent) w
      ∙ settle-balance_spent ps v l live spent w

  pub settle_all-OldestFirst :
      (vs : List Invoice) (l : Ledger)
      → All (IsLive l.reversals) ps
      → Distinct (λ v. v.pk) vs
      → OldestFirst l (settle_all ps vs l) vs
  unfolding settle_all
  settle_all-OldestFirst [] l live d = tt
  settle_all-OldestFirst (v ∷ vs) l live d =
      let l' = settle ps v l in
      let live' : All (IsLive l'.reversals) ps = unfold settle in live in
      (
        λ owing. elim (settle-exhausts ps v l live) [
          | inl done ↦ absurd (
              omega (arith, ap pos_part (settle_all-balance_others vs l' v live' d.0), done, owing))
          | inr spent ↦
              All-map _ _ vs
                (λ w ne.
                  settle_all-balance_spent vs l' live' spent w
                  ∙ settle-balance_others ps v l live w ne)
                d.0
        ],
        OldestFirst-from vs l l' (settle_all ps vs l') (others_unchanged vs v l live d.0)
            (settle_all-OldestFirst vs l' live' d.1),
      )
