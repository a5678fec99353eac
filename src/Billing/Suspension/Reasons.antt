-- ===== src/Billing/Suspension/Reasons.antt =====
-- What stands against a suspension, as statements about the rows: an open complaint about a bill, an
-- open outage, and a network whose check is missing, failed or old.
use fireisp.Prelude.{
  ℕ, ◌+◌, ◌≤◌, ◌≡◌, ◌≢◌, refl, ap, ◌⊎◌, inl, inr, true, false, not, ◌&&◌, Option, none, some, arith,
  any, find, ◌==◌, Option-cases, is_some,
}
use fireisp.Prelude.Exists.{Exists, Reflects, refuted, refutes, any-Reflects}
use fireisp.Prelude.Text.{Text, codes, text_eq}
use fireisp.Store.{
  Subscription, Ticket, billing, resolved, Outage, Operations, HealthCheck, RadiusCredential,
}
use fireisp.Operations.Reasons.{is_billing-Reflects, is_resolved-Reflects}
use fireisp.Operations.{has_billing_dispute_hold}
use fireisp.Billing.Suspension.{health_code, is_network_confirmed}

-- A complaint about a bill of the account, or of this service, that is not resolved.
pub record Disputes (s : Subscription) (t : Ticket) : Type 0 where
  pub customer : t.customer ≡ s.customer
  pub kind : t.kind ≡ billing
  pub unresolved : t.status ≢ resolved
  pub about : (t.subscription ≡ none) ⊎ (t.subscription ≡ some s.pk)

-- An outage of the service that has not ended.
pub record IsOut (s : Subscription) (u : Outage) : Type 0 where
  pub affected : Exists (λ k. k ≡ s.pk) u.subscriptions
  pub running : u.ended_at ≡ none

-- The code of the node of the service's router, or that of the main one without a credential.
abbrev pub SpeaksFor : Operations → ℕ → Text → Type 0
SpeaksFor o service code =
    let known =
      find (λ c. elim c.subscription [ none ↦ false | some k ↦ k == service ]) o.credentials in
    ((known ≡ none) × (code ≡ codes "network_sync"))
    ⊎ ((c : RadiusCredential) × (known ≡ some c) × (code ≡ c.health_code))

-- The first check of that code succeeded, and is at most 120 seconds old.
pub record NetworkConfirmed (o : Operations) (service now : ℕ) : Type 0 where
  pub code : Text
  pub speaks : SpeaksFor o service code
  pub check : HealthCheck
  pub is_check : find (λ h. text_eq h.code code) o.checks ≡ some check
  pub healthy : check.healthy ≡ true
  pub recent : now ≤ check.checked_at + 120

about-Reflects :
    (o : Option ℕ) (k : ℕ)
    → Reflects (elim o [ none ↦ true | some j ↦ j == k ]) ((o ≡ none) ⊎ (o ≡ some k))
about-Reflects none k = (λ _. inl refl, λ _. refl)
about-Reflects (some j) k = (
  λ h. let same : j ≡ k = ground (arith, h) in inr (ap some same),
  λ e. elim e [ inl absent ↦ absurd cc | inr same ↦ let it : j ≡ k = cc in rw it (ground arith) ],
)

pub has_billing_dispute_hold-Reflects :
    (o : Operations) (s : Subscription)
    → Reflects (has_billing_dispute_hold o.tickets s) (Exists (Disputes s) o.tickets)
unfolding has_billing_dispute_hold
has_billing_dispute_hold-Reflects o s = any-Reflects _ (Disputes s) o.tickets λ t. (
  λ h. record {
    customer = ground (arith, h);
    kind = (is_billing-Reflects t.kind).0 (ground (arith, h));
    unresolved = refuted (is_resolved-Reflects t.status) (ground (arith, h));
    about = (about-Reflects t.subscription s.pk).0 (ground (arith, h));
  },
  λ d.
      let b = (is_billing-Reflects t.kind).1 d.kind in
      let r = refutes (is_resolved-Reflects t.status) d.unresolved in
      let a = (about-Reflects t.subscription s.pk).1 d.about in ground (arith, d.customer, b, r, a),
)

same-Reflects : (j k : ℕ) → Reflects (j == k) (j ≡ k)
same-Reflects j k = (λ h. ground (arith, h), λ h. ground (arith, h))

pub outage-Reflects :
    (o : Operations) (s : Subscription)
    → Reflects
        (any (λ u. any (λ k. k == s.pk) u.subscriptions && not (is_some u.ended_at)) o.outages)
        (Exists (IsOut s) o.outages)
outage-Reflects o s = any-Reflects _ (IsOut s) o.outages λ u.
    let listed =
      any-Reflects (λ k. k == s.pk) (λ k. k ≡ s.pk) u.subscriptions (λ k. same-Reflects k s.pk) in
    (
      λ h. record {
        affected = listed.0 (ground (arith, h));
        running = absent u.ended_at (ground (arith, h));
      },
      λ out. let l = listed.1 out.affected in rw (l, out.running) refl,
    )
  where
    absent : (t : Option ℕ) → is_some t ≡ false → t ≡ none
    absent none h = refl
    absent (some t) h = cc

health_code-SpeaksFor : (o : Operations) (service : ℕ) → SpeaksFor o service (health_code o service)
unfolding health_code
health_code-SpeaksFor o service =
    elim (Option-cases
      (find (λ c. elim c.subscription [ none ↦ false | some k ↦ k == service ]) o.credentials)) [
        | inl missing ↦ inl (missing, rw (missing, health_code) refl)
        | inr (c, known) ↦ inr (c, known, rw (known, health_code) refl)
      ]

SpeaksFor-unique :
    (o : Operations) (service : ℕ) (code : Text)
    → SpeaksFor o service code
    → code ≡ health_code o service
unfolding health_code
SpeaksFor-unique o service code (inl (missing, same)) = rw (missing, health_code) same
SpeaksFor-unique o service code (inr (c, known, same)) = rw (known, health_code) same

pub is_network_confirmed-Reflects :
    (o : Operations) (service now : ℕ)
    → Reflects (is_network_confirmed o service now) (NetworkConfirmed o service now)
unfolding is_network_confirmed
is_network_confirmed-Reflects o service now =
    elim (Option-cases (find (λ h. text_eq h.code (health_code o service)) o.checks)) [
      | inl missing ↦
          rw (missing, is_network_confirmed)
            (
              λ h. absurd cc,
              λ c.
                  let it : find (λ h. text_eq h.code (health_code o service)) o.checks
                      ≡ some c.check =
                    rw (← SpeaksFor-unique o service c.code c.speaks) c.is_check in
                  absurd cc,
            )
      | inr (check, found) ↦
          rw (found, is_network_confirmed)
            (
              λ h. record {
                code = health_code o service;
                speaks = health_code-SpeaksFor o service;
                check = check;
                is_check = found;
                healthy = ground (arith, h);
                recent = ground (arith, h);
              },
              λ c.
                  let it : find (λ h. text_eq h.code (health_code o service)) o.checks
                      ≡ some c.check =
                    rw (← SpeaksFor-unique o service c.code c.speaks) c.is_check in
                  let same : c.check ≡ check = cc in
                  let healthy : check.healthy ≡ true = rw (← same) c.healthy in
                  let recent : now ≤ check.checked_at + 120 = rw (← same) c.recent in
                  ground (arith, healthy, recent),
            )
    ]
