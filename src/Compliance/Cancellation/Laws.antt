-- ===== src/Compliance/Cancellation/Laws.antt =====
-- Laws of `cancel_subscription`.
use fireisp.Prelude.{
  suc, update_where, ◌++◌, ==_refl, ℕ, ◌≡◌, refl, sym, true, false, inl, inr, Option, some, ◌∷◌,
  ◌==◌, find, Bool-cases, Option-cases,
}
use fireisp.Prelude.Text.{Text, codes, is_blank, show_ℕ}
use fireisp.Prelude.Keys.{find-own, find-replaced}
use fireisp.Store.{
  Db, Env, Journal, ok, ◌>>=◌, cancelled, subscription_cancelled, Customer, AuditEvent,
  Subscription,
}
use fireisp.Store.Compliance.{CancellationRequest}
use fireisp.Store.Ensures.{Ensures, Ensures-eq}
use fireisp.Core.{audit, save_subscription}
use fireisp.Core.Reads.{
  get_subscription_cases, get_customer_cases, get_customer_found, get_subscription_found,
  publish_runs,
}
use fireisp.Core.Actors.{Actor, may_act, signed_in}
use fireisp.Compliance.Cancellation.{new_cancellation, enter_cancellation, cancel_subscription}

-- The state that a new cancellation leaves.
unfoldable pub entered : Db → Subscription → Text → Text → Option Actor → Journal → Db
entered db s channel reason actor j = record db {
  next_pk = suc db.next_pk;
  accounts = record db.accounts {
    subscriptions =
        update_where (λ t. t.pk == s.pk) (λ _. record s { status = cancelled })
          db.accounts.subscriptions;
  };
  compliance = record db.compliance {
    cancellations =
        new_cancellation db.next_pk s.pk channel reason actor ∷ db.compliance.cancellations;
  };
  journal = j;
}

enter_runs :
    (env : Env) (s : Subscription) (channel reason : Text) (actor : Option Actor) (db : Db)
    → (j : Journal) × (enter_cancellation env s channel reason actor db
        ≡ ok (
          new_cancellation db.next_pk s.pk channel reason actor,
          entered db s channel reason actor j,
        ))
unfolding enter_cancellation entered save_subscription audit
enter_runs env s channel reason actor db =
    let event : AuditEvent = record {
      at = env.now;
      actor = signed_in actor;
      action = codes "subscription.cancelled";
      target = s.pk;
    } in
    let (j, published) =
      publish_runs (codes "subscription-cancelled-" ++ show_ℕ s.pk)
        (subscription_cancelled s.pk db.next_pk)
        (entered db s channel reason actor
          (record db.journal { audits = event ∷ db.journal.audits })) in
    (j, rw (◌>>=◌, published) refl)

-- What `cancel_subscription` has found when it returns `r`.
record Cancelled (pk : ℕ) (actor : Option Actor) (r : CancellationRequest) (db' : Db) : Type 0 where
  pub service : Subscription
  pub is_service : find (λ s. s.pk == pk) db'.accounts.subscriptions ≡ some service
  pub customer : Customer
  pub is_customer : find (λ c. c.pk == service.customer) db'.accounts.customers ≡ some customer
  pub allowed : may_act customer.user actor ≡ true
  pub recorded : find (λ x. x.subscription == service.pk) db'.compliance.cancellations ≡ some r

entered-Cancelled :
    (pk : ℕ) (actor : Option Actor) (channel reason : Text) (s : Subscription) (c : Customer)
    (db : Db) (j : Journal)
    → find (λ s. s.pk == pk) db.accounts.subscriptions ≡ some s
    → find (λ c. c.pk == s.customer) db.accounts.customers ≡ some c
    → may_act c.user actor ≡ true
    → Cancelled pk actor
        (new_cancellation db.next_pk s.pk channel reason actor)
        (entered db s channel reason actor j)
unfolding entered new_cancellation
entered-Cancelled pk actor channel reason s c db j is_s is_c allowed =
    let subscriptions = db.accounts.subscriptions in
    let own = (find-own (λ x. x.pk) pk subscriptions s is_s).0 in
    record {
      service = record s { status = cancelled };
      is_service =
          (find-replaced (λ x. x.pk) s.pk pk (record s { status = cancelled }) subscriptions refl
              is_s).0
            (sym own);
      customer = c;
      is_customer = is_c;
      allowed = allowed;
      recorded = rw (==_refl s.pk) refl;
    }

cancel_subscription-Cancelled :
    (env : Env) (pk : ℕ) (actor : Option Actor) (channel reason : Text) (db : Db)
    → Ensures (Cancelled pk actor) (cancel_subscription env pk actor channel reason db)
unfolding cancel_subscription
cancel_subscription-Cancelled env pk actor channel reason db = elim (get_subscription_cases pk db) [
  | inr (e, bad) ↦ rw (◌>>=◌, bad) tt
  | inl (s, is_s, es) ↦ elim (get_customer_cases s.customer db) [
    | inr (e, bad) ↦ rw (◌>>=◌, es, bad) tt
    | inl (c, is_c, ec) ↦ elim (Bool-cases (may_act c.user actor)) [
      | inr other ↦ rw (◌>>=◌, es, ec, es, other) tt
      | inl allowed ↦ elim (Bool-cases (is_blank channel)) [
        | inl blank ↦ rw (◌>>=◌, es, ec, es, allowed, blank) tt
        | inr named ↦
            elim (Option-cases (find (λ x. x.subscription == s.pk) db.compliance.cancellations)) [
              | inr (r, known) ↦
                  rw (◌>>=◌, es, ec, es, allowed, named, known)
                    (record {
                      service = s;
                      is_service = is_s;
                      customer = c;
                      is_customer = is_c;
                      allowed = allowed;
                      recorded = known;
                    })
              | inl new ↦
                  let (j, runs) = enter_runs env s channel reason actor db in
                  rw (◌>>=◌, es, ec, es, allowed, named, new, runs)
                    (entered-Cancelled pk actor channel reason s c db j is_s is_c allowed)
            ]
      ]
    ]
  ]
]

-- A cancellation that went through, asked for again by the same actor with any channel that is not
-- blank, at any time, returns the same record and leaves the database as it is.
pub cancel_subscription_again :
    (env env' : Env) (pk : ℕ) (actor : Option Actor) (channel reason channel' reason' : Text)
    (r : CancellationRequest) (db db' : Db)
    → cancel_subscription env pk actor channel reason db ≡ ok (r, db')
    → is_blank channel' ≡ false
    → (cancel_subscription env' pk actor channel' reason' db' ≡ ok (r, db'))
unfolding cancel_subscription
cancel_subscription_again env env' pk actor channel reason channel' reason' r db db' run named =
    let done =
      Ensures-eq (Cancelled pk actor) (cancel_subscription-Cancelled env pk actor channel reason db)
        run in
    let es = get_subscription_found pk done.service db' done.is_service in
    let ec = get_customer_found done.service.customer done.customer db' done.is_customer in
    rw (cancel_subscription, ◌>>=◌, es, ec, es, done.allowed, named, done.recorded) refl
