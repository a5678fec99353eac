-- ===== src/Compliance/Gates/Documents.antt =====
-- What the gates of the law and of the documents let pass.
use fireisp.Prelude.{
  ℕ, ◌≡◌, refl, true, false, not, ◌&&◌, ◌||◌, inl, inr, some, ◌==◌, arith, find, any, Bool-cases,
  Option-cases,
}
use fireisp.Store.{Organization, Customer, Plan, Subscription, Db, Env, ok, ◌>>=◌}
use fireisp.Store.Compliance.{LegalKind, Purpose, PlanRegistration}
use mathlib.Core.Path.{subst}
use fireisp.Store.Ensures.{Ensures, Ensures-map, Ensures-eq, Result-cases}
use fireisp.Core.{get_organization}
use fireisp.Core.Reads.{
  get_customer_found, get_organization_cases, get_organization_found, get_plan_cases,
}
use fireisp.Compliance.Gates.{
  Gate, legal_readiness, require_legal_readiness, registration_of, is_registered,
  check_registration, require_plan_registration, in_force, check_documents,
  require_customer_documents,
}

pub require_legal_readiness-ready :
    (env : Env) (o : Organization) (db : Db)
    → o.demo_mode ≡ false
    → Ensures
        (λ _ d. (d ≡ db) × ((legal_readiness env o db.compliance).ready ≡ true))
        (require_legal_readiness env o db)
unfolding require_legal_readiness
require_legal_readiness-ready env o db real =
    elim (Bool-cases (not o.demo_mode && not (legal_readiness env o db.compliance).ready)) [
      | inl blocked ↦ rw (◌>>=◌, blocked) tt
      | inr open_gate ↦ rw (◌>>=◌, open_gate) (refl, ground (arith, open_gate, real))
    ]

-- The tariff of a plan is registered: an approved registration that fits the plan is in force.
pub record HasTariff (env : Env) (plan : Plan) (db : Db) : Type 0 where
  pub registration : PlanRegistration
  pub is_registration : registration_of plan db.compliance.registrations ≡ some registration
  pub registered : is_registered plan (env.local_date env.now) registration ≡ true

check_registration-HasTariff :
    (env : Env) (plan : Plan) (db : Db)
    → Ensures (λ _ d. (d ≡ db) × HasTariff env plan db) (check_registration env plan db)
unfolding check_registration
check_registration-HasTariff env plan db =
    elim (Option-cases (registration_of plan db.compliance.registrations)) [
      | inl missing ↦ rw (◌>>=◌, missing) tt
      | inr (r, is_r) ↦ elim (Bool-cases (is_registered plan (env.local_date env.now) r)) [
        | inr bad ↦ rw (◌>>=◌, is_r, bad) tt
        | inl fine ↦
            rw (◌>>=◌, is_r, fine)
              (refl, record { registration = r; is_registration = is_r; registered = fine })
      ]
    ]

-- The customer has accepted the contract, and was given the notice of privacy.
abbrev pub Accepted : Env → ℕ → ℕ → LegalKind → Purpose → Db → Type 0
Accepted env organization customer kind purpose db =
    any
      (in_force db.compliance.versions organization customer (env.local_date env.now) kind purpose)
      db.compliance.consents
    ≡ true

pub record HasDocuments (env : Env) (organization customer : ℕ) (db : Db) : Type 0 where
  pub contract : Accepted env organization customer LegalKind.contract Purpose.contract db
  pub privacy : Accepted env organization customer LegalKind.privacy Purpose.privacy_notice db

check_documents-HasDocuments :
    (env : Env) (organization customer : ℕ) (db : Db)
    → Ensures
        (λ _ d. (d ≡ db) × HasDocuments env organization customer db)
        (check_documents env organization customer db)
unfolding check_documents
check_documents-HasDocuments env organization customer db =
    let today = env.local_date env.now in
    let contract =
      any
        (in_force db.compliance.versions organization customer today LegalKind.contract
          Purpose.contract)
        db.compliance.consents in
    let privacy =
      any
        (in_force db.compliance.versions organization customer today LegalKind.privacy
          Purpose.privacy_notice)
        db.compliance.consents in
    elim (Bool-cases (not contract || not privacy)) [
      | inl missing ↦ rw (◌>>=◌, missing) tt
      | inr both ↦
          rw (◌>>=◌, both)
            (refl, record { contract = ground (arith, both); privacy = ground (arith, both) })
    ]

-- The documents of a service outside of the demonstration.
pub record IsDocumented (env : Env) (s : Subscription) (organization customer : ℕ) (db : Db)
    : Type 0 where
  pub documents : HasDocuments env organization customer db
  pub plan : Plan
  pub is_plan : find (λ p. p.pk == s.plan) db.accounts.plans ≡ some plan
  pub seller : Organization
  pub is_seller : find (λ o. o.pk == plan.organization) db.accounts.organizations ≡ some seller
  pub tariff : seller.demo_mode ≡ false → HasTariff env plan db

-- The two last steps, for a plan that was found.
tariff_and_documents :
    (env : Env) (s : Subscription) (organization customer : ℕ) (p : Plan) (q : Organization)
    (db : Db)
    → find (λ p. p.pk == s.plan) db.accounts.plans ≡ some p
    → find (λ o. o.pk == p.organization) db.accounts.organizations ≡ some q
    → Ensures
        (λ _ d. (d ≡ db) × IsDocumented env s organization customer db)
        ((require_plan_registration env p >>= λ _. check_documents env organization customer) db)
unfolding require_plan_registration
tariff_and_documents env s organization customer p q db is_p is_q = elim (Bool-cases q.demo_mode) [
  | inl lab ↦
      rw (◌>>=◌, eq, lab)
        (Ensures-map Papers Gated (check_documents env organization customer db)
          (λ _ d h. (h.0, done h.1 (λ e. absurd cc))) papers)
  | inr market ↦ elim (Result-cases (check_registration env p db)) [
    | inr (e, bad) ↦ rw (◌>>=◌, eq, market, bad) tt
    | inl ((g, d), run) ↦
        let (same, tariff) =
          Ensures-eq (λ _ d. (d ≡ db) × HasTariff env p db) (check_registration-HasTariff env p db)
            run in
        let run' : check_registration env p db ≡ ok (g, db) =
          subst (λ x. check_registration env p db ≡ ok (g, x)) same run in
        rw (◌>>=◌, eq, market, run')
          (Ensures-map Papers Gated (check_documents env organization customer db)
            (λ _ d h. (h.0, done h.1 (λ _. tariff))) papers)
  ]
]
  where
    eq : get_organization p.organization db ≡ ok (q, db)
    eq = get_organization_found p.organization q db is_q

    Papers : Gate → Db → Type 0
    Papers _ d = (d ≡ db) × HasDocuments env organization customer db

    Gated : Gate → Db → Type 0
    Gated _ d = (d ≡ db) × IsDocumented env s organization customer db

    papers : Ensures Papers (check_documents env organization customer db)
    papers = check_documents-HasDocuments env organization customer db

    done :
        HasDocuments env organization customer db
        → (q.demo_mode ≡ false → HasTariff env p db)
        → IsDocumented env s organization customer db
    done documents tariff = record {
      documents = documents;
      plan = p;
      is_plan = is_p;
      seller = q;
      is_seller = is_q;
      tariff = tariff;
    }

pub require_customer_documents-IsDocumented :
    (env : Env) (s : Subscription) (o : Organization) (c : Customer) (db : Db)
    → find (λ c. c.pk == s.customer) db.accounts.customers ≡ some c
    → find (λ o. o.pk == c.organization) db.accounts.organizations ≡ some o
    → o.demo_mode ≡ false
    → Ensures
        (λ _ d. (d ≡ db) × IsDocumented env s o.pk c.pk db)
        (require_customer_documents env s db)
unfolding require_customer_documents require_plan_registration
require_customer_documents-IsDocumented env s o c db is_c is_o real =
    let ec = get_customer_found s.customer c db is_c in
    let eo = get_organization_found c.organization o db is_o in
    elim (get_plan_cases s.plan db) [
      | inr (e, bad) ↦ rw (◌>>=◌, ec, eo, real, bad) tt
      | inl (p, is_p, ep) ↦ elim (get_organization_cases p.organization db) [
        | inr (e, bad) ↦ rw (require_plan_registration, ◌>>=◌, ec, eo, real, ep, bad) tt
        | inl (q, is_q, eq) ↦
            rw (◌>>=◌, ec, eo, real, ep) (tariff_and_documents env s o.pk c.pk p q db is_p is_q)
      ]
    ]
