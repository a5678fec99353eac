-- ===== src/Compliance/Arco/Services.antt =====
-- Each service on requests keeps them orderly and refines the diagram of the stages.
use fireisp.Prelude.{
  ℕ, ◌≡◌, refl, ◌∙◌, true, false, not, ◌||◌, Bool, Option, none, List, arith, is_some,
}
use fireisp.Prelude.Text.{Text, is_blank, is_empty, codes}
use fireisp.Calendar.{Date, date_ltb}
use fireisp.Store.{
  Db, Customer, Env, M, ◌>>=◌, ◌>>◌, pure, identity_reviewed, identity_pending, not_granted,
  already_extended, stage_closed, permission_denied, bad_record, no_evidence, no_decision, bad_date,
  late_extension, incomplete_extension,
}
use fireisp.Store.Compliance.{RequestType, ArcoRequest, Stage}
use fireisp.Store.Ensures.{Ensures-bind}
use fireisp.Store.Preserves.{Preserves, Preserves-pure, Preserves-then}
use fireisp.Store.Leads.{
  Leads, Leads-bind, Leads-read, Leads-guard, Leads-gets, Leads-or_raise, Leads-from, Leads-weaken,
  Leads-Preserves,
}
use fireisp.Core.{audit}
use fireisp.Core.Actors.{Actor, is_stranger, signed_in}
use fireisp.Core.Preserves.{get_customer-Preserves}
use fireisp.Compliance.Arco.{
  new_arco, create_arco_request, verified, is_pending_identity, is_in_review, is_decision_sent,
  verify_arco_identity, deadline, extension_days, implementation_due, responded, respond_arco,
  due_of, with_due, is_open_stage, new_extension, record_extension, extend_stage, extend_arco,
  carried_out, complete_arco, or_today,
}
use fireisp.Compliance.Arco.Stages.{After}
use fireisp.Compliance.Arco.Writes.{
  audit-After, get_arco-Leads, save_arco-Leads, fresh-Leads, add-Leads, IsExtensible,
  fresh-IsExtensible, extension-Leads, deadline-Preserves,
}
use fireisp.Compliance.Arco.Versions.{
  verified-Follows, responded-Follows, with_due-Follows, carried_out-Follows, with_due-pk,
}

module _ (old : List ArcoRequest) where
  ended-After :
      {B : Type 0} (env : Env) (actor : Option ℕ) (action : Text) (target : ℕ) (b : B)
      → Preserves (After old) (audit env actor action target >> pure b)
  ended-After env actor action target b =
      Preserves-then (audit-After old env actor action target) (Preserves-pure b)

  pub create-After :
      (env : Env) (c : Customer) (kind : RequestType) (description : Text) (actor : Option Actor)
      → Preserves (After old) (create_arco_request env c kind description actor)
  unfolding create_arco_request new_arco
  create-After env c kind description actor = Leads-Preserves (
      Leads-guard (is_stranger c.user actor) permission_denied λ _.
        Leads-read (deadline-Preserves old (env.local_date env.now) 20 c.organization) λ due.
          Leads-guard (is_empty description) bad_record λ _. fresh-Leads old λ pk.
            Leads-bind
              (add-Leads old (new_arco pk c.pk kind description (env.local_date env.now) due)
                (refl, refl, record { not_sent = refl; not_granted = refl; not_completed = refl }))
              λ _.
                Leads-from (λ _ h. h)
                  (ended-After env (signed_in actor) (codes "arco.received") pk
                    (new_arco pk c.pk kind description (env.local_date env.now) due)))

  pub verify-After :
      (env : Env) (pk : ℕ) (actor : Option Actor) (evidence : Text)
      → Preserves (After old) (verify_arco_identity env pk actor evidence)
  unfolding verify_arco_identity
  verify-After env pk actor evidence = Leads-Preserves (
      get_arco-Leads old pk λ r. Leads-guard (is_blank evidence) no_evidence λ given.
        Leads-guard (not (is_pending_identity r.status)) identity_reviewed λ pending.
          Leads-bind
            (save_arco-Leads old r (verified r env.now evidence) (unfold verified in refl)
              (verified-Follows r env.now evidence (ground (arith, pending)) given))
            λ _. Leads-from (λ _ h. h) (ended-After _ _ _ _ _))

  implementation_due-Leads :
      {B : Type 0} {Q P : Db → Type 0} (granted : Bool) (sent_on : Date) (organization : ℕ)
      {k : Option Date → M B}
      → ((due : Option Date) → (granted ≡ true → is_some due ≡ true) → Leads Q P (k due))
      → Leads Q P (implementation_due granted sent_on organization >>= k)
  unfolding implementation_due
  implementation_due-Leads false sent_on organization h = record {
    at = λ db q. (h none λ e. cc).at db q;
  }
  implementation_due-Leads {Q = Q} {P = P} true sent_on organization {k = k} h = record {
    at = λ db q.
        Ensures-bind (λ due d. (is_some due ≡ true) × Q d) (λ _ d. P d)
          (implementation_due true sent_on organization) k db
          (Ensures-bind (λ _ d. Q d) (λ due d. (is_some due ≡ true) × Q d)
            (deadline sent_on 15 organization) _ db
            ((deadline-Preserves old {P = Q} sent_on 15 organization).at db q)
            (λ _ d q'. (refl, q')))
          (λ due d r. (h due (λ _. r.0)).at d r.1);
  }

  pub respond-After :
      (env : Env) (pk : ℕ) (actor : Option Actor) (decision : Text) (granted : Bool)
      (sent : Option Date)
      → Preserves (After old) (respond_arco env pk actor decision granted sent)
  unfolding respond_arco
  respond-After env pk actor decision granted sent = Leads-Preserves (
      get_arco-Leads old pk λ r.
        Leads-guard (not (is_in_review r.status) || not (is_some r.identity_verified_at))
          identity_pending
          λ review. Leads-guard (is_blank decision) no_decision λ given.
            Leads-guard
              (date_ltb (or_today env sent) r.received_on
                || date_ltb (env.local_date env.now) (or_today env sent))
              bad_date
              λ _. Leads-read (get_customer-Preserves r.customer) λ c.
                implementation_due-Leads granted (or_today env sent) c.organization λ due has_due.
                  let r' = responded r decision granted (or_today env sent) due in
                  Leads-bind
                    (save_arco-Leads old r r' (unfold responded in refl) (
                      responded-Follows r decision granted (or_today env sent) due
                        (ground (arith, review)) given has_due))
                    λ _. Leads-from (λ _ h. h) (ended-After _ _ _ _ _))

  pub complete-After :
      (env : Env) (pk : ℕ) (actor : Option Actor) (evidence : Text)
      → Preserves (After old) (complete_arco env pk actor evidence)
  unfolding complete_arco
  complete-After env pk actor evidence = Leads-Preserves (
      get_arco-Leads old pk λ r.
        Leads-guard (not (is_decision_sent r.status) || is_blank evidence) not_granted λ sent.
          Leads-bind
            (save_arco-Leads old r (carried_out r (env.local_date env.now) evidence)
              (unfold carried_out in refl)
              (carried_out-Follows r (env.local_date env.now) evidence (ground (arith, sent))
                (ground (arith, sent))))
            λ _. Leads-from (λ _ h. h) (ended-After _ _ _ _ _))

  record_extension-Leads :
      (env : Env) (r : ArcoRequest) (stage : Stage) (due : Date) (actor : Option Actor)
      (reason evidence : Text) (notified_on extended : Date)
      → Leads
          (IsExtensible old r stage)
          (After old)
          (record_extension env r stage due actor reason evidence notified_on extended)
  unfolding record_extension
  record_extension-Leads env r stage due actor reason evidence notified_on extended =
      Leads-read (fresh-IsExtensible old r stage) λ pk.
        Leads-bind
          (extension-Leads old r stage
            (new_extension pk r stage due actor reason evidence notified_on extended)
            (unfold new_extension in refl) (unfold new_extension in refl))
          λ _.
            Leads-bind
              (save_arco-Leads old r (with_due stage extended r) (with_due-pk r stage extended)
                (with_due-Follows r stage extended))
              λ _.
                Leads-from (λ _ h. h)
                  (ended-After env (signed_in actor) (codes "arco.extended") pk
                    (new_extension pk r stage due actor reason evidence notified_on extended))

  pub extend-After :
      (env : Env) (pk : ℕ) (actor : Option Actor) (stage : Option Stage) (reason evidence : Text)
      (notified : Option Date)
      → Preserves (After old) (extend_arco env pk actor stage reason evidence notified)
  unfolding extend_arco extend_stage
  extend-After env pk actor stage reason evidence notified = Leads-Preserves (
      get_arco-Leads old pk λ r. Leads-or_raise incomplete_extension stage λ s _.
        Leads-guard (is_blank reason || is_blank evidence) incomplete_extension λ _.
          Leads-gets λ taken. Leads-guard taken already_extended λ free.
            Leads-or_raise stage_closed (due_of s r) λ due _.
              Leads-guard (not (is_open_stage s r.status)) stage_closed λ _.
                Leads-guard
                  (date_ltb due (or_today env notified)
                    || date_ltb (env.local_date env.now) (or_today env notified)
                    || date_ltb (or_today env notified) r.received_on)
                  late_extension
                  λ _. Leads-read (get_customer-Preserves r.customer) λ c.
                    Leads-read (deadline-Preserves old due (extension_days s) c.organization)
                      λ extended.
                        Leads-weaken (λ db h. (h.0, h.1 ∙ free))
                          (record_extension-Leads env r s due actor reason evidence
                            (or_today env notified) extended))
