-- ===== src/Activation/Laws.antt =====
-- Laws of `activate_subscription`.
use fireisp.Prelude.{
  ℕ, ◌≡◌, sym, ap, true, false, inl, inr, Option, none, some, ◌==◌, find, is_some, Bool-cases,
}
use mathlib.Core.Path.{subst}
use fireisp.Store.{
  Organization, Customer, Subscription, Db, Env, M, Result, ok, err, ◌>>=◌, ◌>>◌, done,
}
use fireisp.Store.Ensures.{Ensures, Ensures-bind, Ensures-eq}
use fireisp.Core.{get_customer, get_subscription}
use fireisp.Core.Reads.{get_customer_found, get_organization_found, get_subscription_found}
use fireisp.Compliance.Gates.{legal_readiness, require_legal_readiness, require_customer_documents}
use fireisp.Compliance.Gates.Documents.{
  IsDocumented, require_legal_readiness-ready, require_customer_documents-IsDocumented,
}
use fireisp.Operations.Installation.{require_installation_readiness}
use fireisp.Operations.Installation.Laws.{IsInstalled, check_installation-IsInstalled}
use fireisp.Activation.{is_cancelled_status, pass_gates, open_service, activate_subscription}

require_installation_readiness-IsInstalled :
    (env : Env) (s : Subscription) (o : Organization) (c : Customer) (db : Db)
    → find (λ c. c.pk == s.customer) db.accounts.customers ≡ some c
    → find (λ o. o.pk == c.organization) db.accounts.organizations ≡ some o
    → o.demo_mode ≡ false
    → Ensures
        (λ _ d. (d ≡ db) × IsInstalled env s o.pk db)
        (require_installation_readiness env s db)
unfolding require_installation_readiness
require_installation_readiness-IsInstalled env s o c db is_c is_o real =
    let ec = get_customer_found s.customer c db is_c in
    let eo = get_organization_found c.organization o db is_o in
    rw (◌>>=◌, ec, eo, real) (check_installation-IsInstalled env s o.pk db)

-- What stood when a service was activated for the first time in production.
pub record IsCleared (env : Env) (s : Subscription) (o : Organization) (c : Customer) (db : Db)
    : Type 0 where
  pub not_cancelled : is_cancelled_status s.status ≡ false
  pub legal : (legal_readiness env o db.compliance).ready ≡ true
  pub documented : IsDocumented env s o.pk c.pk db
  pub installed : IsInstalled env s o.pk db

module _ (env : Env) (actor : Option ℕ) (s : Subscription) (o : Organization) (c : Customer)
    (db : Db) (is_c : find (λ c. c.pk == s.customer) db.accounts.customers ≡ some c)
    (is_o : find (λ o. o.pk == c.organization) db.accounts.organizations ≡ some o)
    (real : o.demo_mode ≡ false) where
  abbrev Cleared : {A : Type 0} → A → Db → Type 0
  Cleared _ _ = IsCleared env s o c db

  gates-Cleared :
      {B : Type 0} (rest : M B)
      → is_cancelled_status s.status ≡ false
      → Ensures Cleared ((pass_gates env s >> rest) db)
  unfolding pass_gates
  gates-Cleared rest open_state =
      Ensures-bind Cleared Cleared (pass_gates env s) (λ _. rest) db gates
        (λ _ d cleared. Ensures-const cleared (rest d))
    where
      Ensures-const :
          {A : Type 0} → IsCleared env s o c db → (r : Result (A × Db)) → Ensures Cleared r
      Ensures-const h (ok _) = h
      Ensures-const h (err _) = tt

      gates : Ensures Cleared (pass_gates env s db)
      gates =
          rw
            (
              pass_gates,
              ◌>>=◌,
              get_customer_found s.customer c db is_c,
              get_organization_found c.organization o db is_o,
            )
            (Ensures-bind (λ _ d. (d ≡ db) × ((legal_readiness env o db.compliance).ready ≡ true))
              Cleared (require_legal_readiness env o) _ db
              (require_legal_readiness-ready env o db real)
              λ _ d legal.
                subst
                  (λ x. Ensures Cleared (
                    (do
                      _ ← require_customer_documents env s
                      _ ← require_installation_readiness env s
                      done)
                      x))
                  (sym legal.0)
                  (Ensures-bind (λ _ d. (d ≡ db) × IsDocumented env s o.pk c.pk db) Cleared
                    (require_customer_documents env s) _ db
                    (require_customer_documents-IsDocumented env s o c db is_c is_o real)
                    λ _ d documented.
                      subst
                        (λ x.
                          Ensures Cleared ((do _ ← require_installation_readiness env s; done) x))
                        (sym documented.0)
                        (Ensures-bind (λ _ d. (d ≡ db) × IsInstalled env s o.pk db) Cleared
                          (require_installation_readiness env s) _ db
                          (require_installation_readiness-IsInstalled env s o c db is_c is_o real)
                          λ _ d installed. record {
                            not_cancelled = open_state;
                            legal = legal.1;
                            documented = documented.1;
                            installed = installed.1;
                          })))

-- In production, activate_subscription refuses a service that was not activated before unless it
-- is not cancelled, legal_readiness finds the organization ready, the customer has accepted an
-- approved contract and was given the notice of privacy, the tariff of the plan is registered
-- unless its organization is in the demonstration, and the installation is complete: a finished
-- work order with evidence, at least one CPE, each verified and at a documented sector of a
-- licensed site, and a live session of the customer.
pub activate_subscription-IsCleared :
    (env : Env) (pk : ℕ) (actor : Option ℕ) (s s' : Subscription) (o : Organization) (c : Customer)
    (db db' : Db)
    → find (λ s. s.pk == pk) db.accounts.subscriptions ≡ some s
    → find (λ c. c.pk == s.customer) db.accounts.customers ≡ some c
    → find (λ o. o.pk == c.organization) db.accounts.organizations ≡ some o
    → s.activated_at ≡ none
    → o.demo_mode ≡ false
    → activate_subscription env pk actor db ≡ ok (s', db')
    → IsCleared env s o c db
unfolding activate_subscription
activate_subscription-IsCleared env pk actor s s' o c db db' is_s is_c is_o first real run =
    Ensures-eq (Cleared env actor s o c db is_c is_o real) activation run
  where
    es : get_subscription pk db ≡ ok (s, db)
    es = get_subscription_found pk s db is_s

    ec : get_customer s.customer db ≡ ok (c, db)
    ec = get_customer_found s.customer c db is_c

    unopened : is_some s.activated_at ≡ false
    unopened = ap is_some first

    activation :
        Ensures (Cleared env actor s o c db is_c is_o real) (activate_subscription env pk actor db)
    activation = elim (Bool-cases (is_cancelled_status s.status)) [
      | inl over ↦ rw (activate_subscription, ◌>>=◌, es, ec, es, over) tt
      | inr open_state ↦
          rw (activate_subscription, ◌>>=◌, es, ec, es, open_state, unopened)
            (gates-Cleared env actor s o c db is_c is_o real (open_service env s actor) open_state)
    ]
