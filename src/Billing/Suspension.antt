-- ===== src/Billing/Suspension.antt =====
-- The suspension workflow of billing/services.py: propose, review, apply.
pub mod Reasons
pub mod Laws
pub mod Apply
use fireisp.Prelude.{
  ℕ, ◌+◌, ◌*◌, Bool, true, false, not, ◌&&◌, ◌||◌, Option, none, some, List, [], ◌∷◌, ◌++◌, leb,
  ltb, ◌==◌, if◌then◌else◌, find, any, is_some,
}
use fireisp.Prelude.Text.{Text, codes, text_eq, strip, is_empty, show_ℕ}
use fireisp.Store.{
  Subscription, SubscriptionStatus, active, suspended, SuspensionPolicy, SuspensionProposal,
  SuspensionDecision, SuspensionApplication, Block, not_active, within_grace, billing_dispute,
  open_outage, network_unconfirmed, automatic_disabled, paid_until_changed, Operations, Db,
  subscription_changed, notification, M, ◌>>=◌, maybe, ◌>>◌, done, pure, raise, gets, modify, fresh,
  raise_if, or_raise, with_suspensions, does_not_exist, bad_key, key_reused, blocked_by, no_reason,
  decision_differs, not_reviewed, type_error, Env,
}
use fireisp.Core.{audit, publish, get_customer, get_subscription, save_subscription}
use fireisp.Operations.{has_billing_dispute_hold}
use fireisp.Billing.Payments.{is_bad_key}

abbrev pub is_active : SubscriptionStatus → Bool
is_active active = true
is_active _ = false

-- `not paid_until or paid_until+timedelta(hours=grace_hours)>now`
unfoldable pub in_grace : Subscription → SuspensionPolicy → ℕ → Bool
in_grace s policy now = elim s.paid_until [
  | none ↦ true
  | some t ↦ ltb now (t + policy.grace_hours * 3600)
]

-- The code of the health check that speaks for the subscription's router.
unfoldable pub health_code : Operations → ℕ → Text
health_code o subscription =
    elim (find (λ c. elim c.subscription [ none ↦ false | some k ↦ k == subscription ])
      o.credentials) [ none ↦ codes "network_sync" | some c ↦ c.health_code ]

-- A check of that code that succeeded within the last 120 seconds.
unfoldable pub is_network_confirmed : Operations → ℕ → ℕ → Bool
is_network_confirmed o subscription now =
    elim (find (λ h. text_eq h.code (health_code o subscription)) o.checks) [
      | none ↦ false
      | some h ↦ h.healthy && leb now (h.checked_at + 120)
    ]

unfoldable pub suspension_block :
    Operations → Subscription → SuspensionPolicy → ℕ → Bool → Option Block
suspension_block o s policy now check_health =
    if not (is_active s.status) || not (is_some s.activated_at)
    then some not_active
    else if in_grace s policy now
    then some within_grace
    else if has_billing_dispute_hold o.tickets s
    then some billing_dispute
    else if any (λ u. any (λ k. k == s.pk) u.subscriptions && not (is_some u.ended_at)) o.outages
    then some open_outage
    else if check_health && not (is_network_confirmed o s.pk now)
    then some network_unconfirmed
    else none

-- `SuspensionPolicy.objects.get_or_create(organization=...)`, with the defaults of the model.
unfoldable pub get_policy : ℕ → M SuspensionPolicy
get_policy organization = do
  known ← gets (λ db. find (λ p. p.organization == organization) db.suspensions.policies)
  maybe known
      (do
        let p =
            let r : SuspensionPolicy = record {
              organization = organization;
              automatic_enabled = false;
              grace_hours = 24;
            } in
            r
        modify (with_suspensions λ t. record t { policies = p ∷ t.policies })
        pure p)
      (λ p. pure p)

-- The end of `propose_suspension`, where the key is new.
unfoldable pub record_proposal :
    Env → Subscription → SuspensionPolicy → Option ℕ → Text → M SuspensionProposal
record_proposal env s policy actor key = do
  block ← gets (λ db. suspension_block db.operations s policy env.now false)
  raise_if (is_some block) blocked_by
  until ← or_raise type_error s.paid_until
  pk ← fresh
  let p =
      let r : SuspensionProposal = record {
        pk = pk;
        subscription = s.pk;
        snapshot_paid_until = until;
        idempotency_key = key;
        created_by = actor;
      } in
      r
  modify (with_suspensions λ t. record t { proposals = p ∷ t.proposals })
  audit env actor (codes "billing.suspension.proposed") pk
  pure p

unfoldable pub propose_suspension : Env → Subscription → Option ℕ → Text → M SuspensionProposal
propose_suspension env subscription actor key = do
  raise_if (is_bad_key key) bad_key
  customer ← get_customer subscription.customer
  s ← get_subscription subscription.pk
  policy ← get_policy customer.organization
  existing ← gets (λ db. find (λ p. text_eq p.idempotency_key key) db.suspensions.proposals)
  maybe existing (record_proposal env s policy actor key)
      (λ p. do raise_if (not (p.subscription == s.pk)) key_reused; pure p)

abbrev pub bool_eq : Bool → Bool → Bool
bool_eq true b = b
bool_eq false b = not b

unfoldable pub review_suspension :
    Env → SuspensionProposal → Bool → Text → Option ℕ → M SuspensionDecision
review_suspension env proposal approved note actor = do
  row ← gets (λ db. find (λ p. p.pk == proposal.pk) db.suspensions.proposals)
  p ← or_raise does_not_exist row
  raise_if (is_empty (strip note)) no_reason
  existing ← gets (λ db. find (λ d. d.proposal == p.pk) db.suspensions.decisions)
  maybe existing
      (do
        pk ← fresh
        let d =
            let r : SuspensionDecision = record {
              pk = pk;
              proposal = p.pk;
              approved = approved;
              note = note;
              created_by = actor;
            } in
            r
        modify (with_suspensions λ t. record t { decisions = d ∷ t.decisions })
        audit env actor (codes "billing.suspension.reviewed") p.pk
        pure d)
      (λ d. do raise_if (not (bool_eq d.approved approved)) decision_differs; pure d)

abbrev pub equals : Option ℕ → ℕ → Bool
equals none b = false
equals (some a) b = a == b

-- The reason that stops an approved suspension; a later reason replaces an earlier one.
unfoldable pub application_block :
    Operations → Subscription → SuspensionPolicy → SuspensionProposal → Option ℕ → ℕ → Option Block
application_block o s policy p actor now =
    if not (equals s.paid_until p.snapshot_paid_until)
    then some paid_until_changed
    else if not (is_some actor) && not policy.automatic_enabled
    then some automatic_disabled
    else suspension_block o s policy now true

-- The writes of `apply_suspension`: the application, and the new status where nothing stops it.
unfoldable pub record_application :
    Env → Subscription → SuspensionProposal → Option ℕ → Option Block → M SuspensionApplication
record_application env s p actor block = do
  let next = let r : SubscriptionStatus = elim block [ none ↦ suspended | some _ ↦ s.status ] in r
  if is_some block then done else save_subscription (record s { status = suspended })
  pk ← fresh
  let a =
      let r : SuspensionApplication = record {
        pk = pk;
        proposal = p.pk;
        applied = not (is_some block);
        previous_status = s.status;
        resulting_status = next;
        detail = block;
        created_by = actor;
        created_at = env.now;
      } in
      r
  modify (with_suspensions λ t. record t { applications = a ∷ t.applications })
  audit env actor
      (if is_some block
        then codes "billing.suspension.blocked"
        else codes "billing.suspension.applied")
      pk
  if is_some block then done else do
    publish (codes "suspension:" ++ show_ℕ pk) (subscription_changed s.pk)
    publish (codes "suspension-notice:" ++ show_ℕ pk)
        (notification s.customer (codes "Servicio suspendido por vigencia vencida"))
  pure a

unfoldable pub apply_suspension : Env → SuspensionProposal → Option ℕ → M SuspensionApplication
apply_suspension env proposal actor = do
  target ← get_subscription proposal.subscription
  customer ← get_customer target.customer
  s ← get_subscription proposal.subscription
  row ← gets (λ db. find (λ p. p.pk == proposal.pk) db.suspensions.proposals)
  p ← or_raise does_not_exist row
  existing ← gets (λ db. find (λ a. a.proposal == p.pk) db.suspensions.applications)
  maybe existing
      (do
        decision ← gets (λ db. find (λ d. d.proposal == p.pk) db.suspensions.decisions)
        d ← or_raise not_reviewed decision
        raise_if (not d.approved) not_reviewed
        policy ← get_policy customer.organization
        block ← gets (λ db. application_block db.operations s policy p actor env.now)
        record_application env s p actor block)
      (λ a. pure a)
