-- ===== src/Compliance/Notices/Services.antt =====
-- Each service on notices keeps what was published, delivered and accepted.
use fireisp.Prelude.{
  ℕ, ◌≡◌, refl, sym, ◌∙◌, false, not, ◌&&◌, ◌||◌, inl, inr, Option, none, some, List, ◌==◌, is_some,
  find, Option-cases,
}
use mathlib.Core.Path.{subst}
use fireisp.Prelude.Keys.{find-own}
use fireisp.Prelude.Versions.{replaced-Evolves}
use fireisp.Prelude.Text.{Text, is_blank, codes}
use fireisp.Calendar.{Date, date_ltb}
use fireisp.Store.{
  Db, Env, M, ◌>>=◌, ◌>>◌, pure, notice_immutable, service_cancelled, overflow, late_notice,
  not_published, bad_delivery, permission_denied, done, maybe,
}
use fireisp.Store.Compliance.{RegulatoryNotice}
use fireisp.Store.Preserves.{
  Preserves, Preserves-then, Preserves-pure, Preserves-modify, Preserves-maybe, Preserves-done,
  preserves_rules,
}
use fireisp.Store.Leads.{
  Leads, Leads-bind, Leads-read, Leads-guard, Leads-or_raise, Leads-if, Leads-from, Leads-weaken,
  Leads-Preserves,
}
use fireisp.Core.{audit}
use fireisp.Core.Preserves.{get_customer-Preserves, get_subscription-Preserves, reads_rules}
use fireisp.Core.Actors.{Actor, staff, signed_in, may_act}
use fireisp.Compliance.Arco.{or_today}
use fireisp.Compliance.Consents.{get_version}
use fireisp.Compliance.Notices.Save.{get_notice, check_notice, same_notice, save_notice, notify_by}
use fireisp.Compliance.Notices.{
  enter_notification, check_proposal, publish_new, publish_regulatory_notice, delivered,
  enter_delivery, confirm_notice_delivery, accepted, accept_regulatory_notice, mark_read, receipt,
  enter_receipt, holder, acknowledge_notice_receipt, is_cancelled,
}
use fireisp.Compliance.Notices.Versions.{Follows, Follows-trans, Evolves}
use fireisp.Compliance.Notices.Writes.{
  published_now, published_now-Follows, delivered-Follows, receipt-Follows, accepted-Follows,
}

module _ (old : List RegulatoryNotice) where
  abbrev pub After : Db → Type 0
  After db = Evolves old db.compliance.notices

  abbrev Holds : RegulatoryNotice → Db → Type 0
  Holds n db = After db × (find (λ x. x.pk == n.pk) db.compliance.notices ≡ some n)

  ended-After :
      {B : Type 0} (env : Env) (actor : Option ℕ) (action : Text) (target : ℕ) (b : B)
      → Preserves After (audit env actor action target >> pure b)
  unfolding audit
  ended-After env actor action target b =
      Preserves-then (Preserves-modify _ λ db h. h) (Preserves-pure b)

  get_notice-Leads :
      {B : Type 0} {Q P : Db → Type 0} (pk : ℕ) {k : RegulatoryNotice → M B}
      → ((n : RegulatoryNotice)
          → Leads (λ db. Q db × (find (λ x. x.pk == pk) db.compliance.notices ≡ some n)) P (k n))
      → Leads Q P (get_notice pk >>= k)
  unfolding get_notice
  get_notice-Leads pk h = record {
    at = λ db q. elim (Option-cases (find (λ x. x.pk == pk) db.compliance.notices)) [
      | inl absent ↦ rw (◌>>=◌, absent) tt
      | inr (n, found) ↦ rw (◌>>=◌, found) ((h n).at db (q, found))
    ];
  }

  -- A notice is found by its own key.
  own :
      (pk : ℕ) (n : RegulatoryNotice) (db : Db)
      → After db × (find (λ x. x.pk == pk) db.compliance.notices ≡ some n)
      → Holds n db
  own pk n db h = (h.0, (find-own (λ x. x.pk) pk db.compliance.notices n h.1).1)

  check_notice-Preserves : {P : Db → Type 0} (n : RegulatoryNotice) → Preserves P (check_notice n)
  unfolding check_notice get_version
  check_notice-Preserves n = search reads_rules depth 12

  pub save_notice-Leads :
      {Q : Db → Type 0} (n : RegulatoryNotice)
      → ((db : Db)
          → Q db
          → After db
            × ((o : RegulatoryNotice)
                → find (λ x. x.pk == n.pk) db.compliance.notices ≡ some o
                → (is_some o.published_at && not (same_notice o n)) ≡ false
                → Follows o n))
      → Leads Q After (save_notice n)
  unfolding save_notice
  save_notice-Leads n h = Leads-read (check_notice-Preserves n) λ _. get_notice-Leads n.pk λ o.
      Leads-guard (is_some o.published_at && not (same_notice o n)) notice_immutable λ kept.
        record {
          at = λ db q.
              let (after, follows) = h db q.0 in
              let (same, there) = find-own (λ x. x.pk) n.pk db.compliance.notices o q.1 in
              replaced-Evolves (λ x. x.pk) Follows Follows-trans old db.compliance.notices o n
                (sym same) there (follows o q.1 kept) after;
        }

  -- A later version of the notice that was read.
  save_later :
      (n n' : RegulatoryNotice)
      → n'.pk ≡ n.pk
      → Follows n n'
      → Leads (Holds n) After (save_notice n')
  save_later n n' same follows = save_notice-Leads n' λ db h. (
    h.0,
    λ o found _.
        let there : find (λ x. x.pk == n.pk) db.compliance.notices ≡ some o =
          subst (λ k. find (λ x. x.pk == k) db.compliance.notices ≡ some o) same found in
        let it : some n ≡ some o = sym h.1 ∙ there in
        let is_n : n ≡ o = cc in subst (λ x. Follows x n') is_n follows,
  )

  staff-Preserves : {P : Db → Type 0} (actor : Option Actor) → Preserves P (staff actor)
  unfolding staff
  staff-Preserves none = search preserves_rules
  staff-Preserves (some a) = search preserves_rules

  check_proposal-Preserves :
      {P : Db → Type 0} (n : RegulatoryNotice) → Preserves P (check_proposal n)
  unfolding check_proposal get_version
  check_proposal-Preserves n = search reads_rules depth 12

  enter_notification-Leads :
      {B : Type 0} {P : Db → Type 0} (env : Env) (n : RegulatoryNotice) (customer : ℕ)
      (k : RegulatoryNotice → M B)
      → ((pk : ℕ) → Leads (Holds n) P (k (published_now n pk env.now)))
      → Leads (Holds n) P (enter_notification env n customer >>= k)
  unfolding enter_notification published_now
  enter_notification-Leads env n customer k h = record { at = λ db q. (h db.next_pk).at _ q }

  publish_new-Leads :
      (env : Env) (n : RegulatoryNotice) (actor : Option Actor)
      → is_some n.published_at ≡ false
      → Leads (Holds n) After (publish_new env n actor)
  unfolding publish_new
  publish_new-Leads env n actor new = Leads-read (check_notice-Preserves n) λ _.
      Leads-read (get_subscription-Preserves n.subscription) λ s.
        Leads-guard (is_cancelled s.status) service_cancelled λ _.
          Leads-or_raise overflow (notify_by n) λ last _.
            Leads-guard (date_ltb last (env.local_date env.now)) late_notice λ _.
              Leads-read (check_proposal-Preserves n) λ _.
                enter_notification-Leads env n s.customer _ λ pk.
                  Leads-bind
                    (save_later n (published_now n pk env.now) (unfold published_now in refl)
                      (published_now-Follows n pk env.now new))
                    λ _.
                      Leads-from (λ _ h. h)
                        (ended-After env (signed_in actor) (codes "regulatory_notice.published")
                          n.pk (published_now n pk env.now))

  pub publish-After :
      (env : Env) (pk : ℕ) (actor : Option Actor)
      → Preserves After (publish_regulatory_notice env pk actor)
  unfolding publish_regulatory_notice
  publish-After env pk actor = Leads-Preserves (
      Leads-read (staff-Preserves actor) λ _. get_notice-Leads pk λ n. Leads-weaken (own pk n) (
        Leads-if (is_some n.published_at) (λ _. Leads-from (λ _ h. h.0) (Preserves-pure n))
          (publish_new-Leads env n actor)))

  pub confirm-After :
      (env : Env) (pk : ℕ) (actor : Option Actor) (channel evidence : Text) (on : Option Date)
      → Preserves After (confirm_notice_delivery env pk actor channel evidence on)
  unfolding confirm_notice_delivery enter_delivery
  confirm-After env pk actor channel evidence on =
      let day = or_today env on in
      Leads-Preserves (
        Leads-read (staff-Preserves actor) λ _. get_notice-Leads pk λ n.
          Leads-or_raise not_published n.published_at λ published _.
            Leads-guard (is_blank channel || is_blank evidence) not_published λ _.
              Leads-guard
                (date_ltb day (env.local_date published) || date_ltb (env.local_date env.now) day)
                bad_delivery
                λ _. Leads-weaken (own pk n) (
                  Leads-if (is_some n.delivered_on)
                    (λ _. Leads-from (λ _ h. h.0) (search preserves_rules))
                    (λ new.
                      Leads-bind
                        (save_later n (delivered n day channel evidence) (unfold delivered in refl)
                          (delivered-Follows n day channel evidence new))
                        λ _.
                          Leads-from (λ _ h. h)
                            (ended-After env (signed_in actor)
                              (codes "regulatory_notice.delivery_confirmed") n.pk
                              (delivered n day channel evidence)))))

  pub accept-After :
      (env : Env) (pk : ℕ) (actor : Option Actor) (evidence : Text)
      → Preserves After (accept_regulatory_notice env pk actor evidence)
  unfolding accept_regulatory_notice
  accept-After env pk actor evidence = Leads-Preserves (
      get_notice-Leads pk λ n. Leads-read (get_subscription-Preserves n.subscription) λ s.
        Leads-read (get_customer-Preserves s.customer) λ c.
          Leads-guard (not (may_act c.user actor)) permission_denied λ _.
            Leads-guard (not (is_some n.published_at) || is_blank evidence) not_published λ _.
              Leads-weaken (own pk n) (
                Leads-if (is_some n.accepted_at) (λ _. Leads-from (λ _ h. h.0) (Preserves-pure n))
                  (λ new.
                    Leads-bind
                      (save_later n (accepted n env.now evidence) (unfold accepted in refl)
                        (accepted-Follows n env.now evidence new))
                      λ _.
                        Leads-from (λ _ h. h)
                          (ended-After env (signed_in actor) (codes "regulatory_notice.accepted")
                            n.pk (accepted n env.now evidence)))))

  mark_read-After : (env : Env) (pk : ℕ) → Preserves After (mark_read env pk)
  unfolding mark_read
  mark_read-After env pk = Preserves-modify _ λ db h. h

  receipt-After :
      (env : Env) (o : Option ℕ) (actor : Option ℕ) (target : ℕ) (n : RegulatoryNotice)
      → Preserves After (do
        maybe o done (mark_read env)
        audit env actor (codes "regulatory_notice.receipt_acknowledged") target
        pure n)
  receipt-After env o actor target n =
      Preserves-then (Preserves-maybe o Preserves-done (mark_read-After env))
        (ended-After env actor (codes "regulatory_notice.receipt_acknowledged") target n)

  pub acknowledge-After :
      (env : Env) (pk : ℕ) (actor : Option Actor)
      → Preserves After (acknowledge_notice_receipt env pk actor)
  unfolding acknowledge_notice_receipt enter_receipt
  acknowledge-After env pk actor = Leads-Preserves (
      get_notice-Leads pk λ n. Leads-read (get_subscription-Preserves n.subscription) λ s.
        Leads-read (get_customer-Preserves s.customer) λ c.
          Leads-or_raise permission_denied (holder c.user actor) λ user _.
            Leads-guard (not (is_some n.published_at)) not_published λ _. Leads-weaken (own pk n) (
              Leads-if (is_some n.delivered_on) (λ _. Leads-from (λ _ h. h.0) (Preserves-pure n))
                (λ new.
                  let n' = receipt n (env.local_date env.now) user in
                  Leads-bind
                    (save_later n n' (unfold receipt in refl)
                      (receipt-Follows n (env.local_date env.now) user new))
                    λ _.
                      Leads-from (λ _ h. h)
                        (receipt-After env n.notification (signed_in actor) n.pk n'))))
