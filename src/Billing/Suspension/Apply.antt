-- ===== src/Billing/Suspension/Apply.antt =====
-- What `apply_suspension` of billing/services.py asks before it suspends a service.
use fireisp.Prelude.{
  ℕ, ◌≡◌, refl, ◌⊎◌, false, inl, inr, true, not, Option, none, some, arith, find, ◌==◌, Bool-cases,
  Option-cases, is_some,
}
use fireisp.Store.{
  Subscription, Customer, SuspensionPolicy, SuspensionProposal, SuspensionDecision,
  SuspensionApplication, Block, Operations, Db, ok, gets, ◌>>=◌, Env,
}
use fireisp.Store.Ensures.{Ensures, Ensures-bind, Ensures-map, Ensures-eq}
use fireisp.Store.Returns.{Returns, returns_rules}
use fireisp.Core.Reads.{get_customer_cases, get_subscription_cases}
use fireisp.Billing.Suspension.{
  get_policy, suspension_block, application_block, record_application, apply_suspension,
}
use fireisp.Billing.Suspension.Reasons.{NetworkConfirmed}
use fireisp.Billing.Suspension.Laws.{MaySuspend, suspension_block-none}

-- The policy that is stored for an organization, or the one that it begins with: a grace of 24 hours
-- and no automatic suspension.
abbrev pub IsPolicyOf : Db → ℕ → SuspensionPolicy → Type 0
IsPolicyOf db organization policy =
    let known = find (λ p. p.organization == organization) db.suspensions.policies in
    (known ≡ some policy)
    ⊎ ((known ≡ none) × (policy.automatic_enabled ≡ false) × (policy.grace_hours ≡ 24))

-- Why a suspension was applied: a review approved the proposal, the paid time is the one that was
-- reviewed, and nothing blocked the service at the time. Without an actor the policy allows it.
pub record Justified (env : Env) (actor : Option ℕ) (db : Db) (proposal : SuspensionProposal)
    : Type 0 where
  pub subject : SuspensionProposal
  pub is_subject : find (λ p. p.pk == proposal.pk) db.suspensions.proposals ≡ some subject
  pub decision : SuspensionDecision
  pub decided : find (λ d. d.proposal == subject.pk) db.suspensions.decisions ≡ some decision
  pub approved : decision.approved ≡ true
  pub service : Subscription
  pub is_service :
      find (λ s. s.pk == proposal.subscription) db.accounts.subscriptions ≡ some service
  pub client : Customer
  pub is_client : find (λ c. c.pk == service.customer) db.accounts.customers ≡ some client
  pub policy : SuspensionPolicy
  pub is_policy : IsPolicyOf db client.organization policy
  pub may_suspend : MaySuspend db.operations service policy env.now
  pub confirmed : NetworkConfirmed db.operations service.pk env.now
  pub reviewed_expiry : service.paid_until ≡ some subject.snapshot_paid_until
  pub automatic : actor ≡ none → policy.automatic_enabled ≡ true

application_block-none :
    (o : Operations) (s : Subscription) (policy : SuspensionPolicy) (p : SuspensionProposal)
    (actor : Option ℕ) (now : ℕ)
    → application_block o s policy p actor now ≡ none
    → (suspension_block o s policy now true ≡ none)
      × (s.paid_until ≡ some p.snapshot_paid_until)
      × (actor ≡ none → policy.automatic_enabled ≡ true)
unfolding application_block
application_block-none o s policy p actor now h = ground arith

record_application-applied :
    (env : Env) (s : Subscription) (p : SuspensionProposal) (actor : Option ℕ)
    (block : Option Block)
    → Returns (λ a. a.applied ≡ not (is_some block)) (record_application env s p actor block)
unfolding record_application
record_application-applied env s p actor block = search returns_rules depth 12

get_policy-IsPolicyOf :
    (organization : ℕ) (db : Db)
    → Ensures
        (λ p db'. (db'.operations ≡ db.operations) × IsPolicyOf db organization p)
        (get_policy organization db)
unfolding get_policy
get_policy-IsPolicyOf organization db =
    elim (Option-cases (find (λ p. p.organization == organization) db.suspensions.policies)) [
      | inl new ↦ rw (new, get_policy) (refl, inr (refl, refl, refl))
      | inr (p, known) ↦ rw (known, get_policy) (refl, inl refl)
    ]

module _ (env : Env) (actor : Option ℕ) (proposal : SuspensionProposal) (db : Db) where
  abbrev Applied : SuspensionApplication → Db → Type 0
  Applied a _ = a.applied ≡ true → Justified env actor db proposal

  -- The last part, from the policy on.
  decided_Applied :
      (c : Customer) (p : SuspensionProposal) (d : SuspensionDecision) (s : Subscription)
      → find (λ p. p.pk == proposal.pk) db.suspensions.proposals ≡ some p
      → find (λ d. d.proposal == p.pk) db.suspensions.decisions ≡ some d
      → d.approved ≡ true
      → find (λ s. s.pk == proposal.subscription) db.accounts.subscriptions ≡ some s
      → find (λ c. c.pk == s.customer) db.accounts.customers ≡ some c
      → Ensures Applied (
          (do
            policy ← get_policy c.organization
            block ← gets (λ db. application_block db.operations s policy p actor env.now)
            record_application env s p actor block)
            db)
  decided_Applied c p d s is_p is_d approved is_s is_c =
      Ensures-bind (λ q db'. (db'.operations ≡ db.operations) × IsPolicyOf db c.organization q)
        Applied (get_policy c.organization) _ db (get_policy-IsPolicyOf c.organization db)
        λ policy db' (same, is_policy).
          let block = application_block db'.operations s policy p actor env.now in
          Ensures-map (λ a _. a.applied ≡ not (is_some block)) Applied
            (record_application env s p actor block db')
            (λ a _ applied is_applied.
              let clear : block ≡ none = ground (arith, applied, is_applied) in
              let clear' : application_block db.operations s policy p actor env.now ≡ none =
                rw (← same) clear in
              let (free, expiry, automatic) =
                application_block-none db.operations s policy p actor env.now clear' in
              let (may, confirmed) = suspension_block-none db.operations s policy env.now free in
              record {
                subject = p;
                is_subject = is_p;
                decision = d;
                decided = is_d;
                approved = approved;
                service = s;
                is_service = is_s;
                client = c;
                is_client = is_c;
                policy = policy;
                is_policy = is_policy;
                may_suspend = may;
                confirmed = confirmed;
                reviewed_expiry = expiry;
                automatic = automatic;
              })
            ((record_application-applied env s p actor block).at db')

  apply_Applied :
      (p : SuspensionProposal)
      → find (λ p. p.pk == proposal.pk) db.suspensions.proposals ≡ some p
      → find (λ a. a.proposal == p.pk) db.suspensions.applications ≡ none
      → Ensures Applied (apply_suspension env proposal actor db)
  unfolding apply_suspension
  apply_Applied p is_p new = elim (get_subscription_cases proposal.subscription db) [
    | inr (e, bad) ↦ rw (◌>>=◌, bad) tt
    | inl (s, is_s, es) ↦ elim (get_customer_cases s.customer db) [
      | inr (e, bad) ↦ rw (◌>>=◌, es, bad) tt
      | inl (c, is_c, ec) ↦
          elim (Option-cases (find (λ d. d.proposal == p.pk) db.suspensions.decisions)) [
            | inl missing ↦ rw (◌>>=◌, es, ec, es, is_p, new, missing) tt
            | inr (d, is_d) ↦ elim (Bool-cases d.approved) [
              | inr refused ↦ rw (◌>>=◌, es, ec, es, is_p, new, is_d, refused) tt
              | inl approved ↦
                  rw (◌>>=◌, es, ec, es, is_p, new, is_d, approved)
                    (decided_Applied c p d s is_p is_d approved is_s is_c)
            ]
          ]
    ]
  ]

-- If apply_suspension succeeds for a stored proposal that had no application yet and marks the
-- application as applied, then a stored review approved the proposal, the service is active and
-- installed, its paid time is the reviewed one, and the grace of its organization's stored policy,
-- or of 24 hours without one, has passed since; no ticket is an unresolved billing complaint about
-- the account or the service, no outage of the service is running, the first health check of the
-- node of its router succeeded and is at most 120 seconds old, and without an actor the policy is
-- a stored one that allows automatic suspension.
pub apply_suspension-Justified :
    (env : Env) (actor : Option ℕ) (proposal p : SuspensionProposal) (a : SuspensionApplication)
    (db db' : Db)
    → find (λ p. p.pk == proposal.pk) db.suspensions.proposals ≡ some p
    → find (λ a. a.proposal == p.pk) db.suspensions.applications ≡ none
    → apply_suspension env proposal actor db ≡ ok (a, db')
    → a.applied ≡ true
    → Justified env actor db proposal
apply_suspension-Justified env actor proposal p a db db' is_p new run applied =
    Ensures-eq (Applied env actor proposal db) (apply_Applied env actor proposal db p is_p new) run
      applied
