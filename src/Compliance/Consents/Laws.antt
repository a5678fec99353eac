-- ===== src/Compliance/Consents/Laws.antt =====
-- Laws of `withdraw_consent`.
use mathlib.Core.Path.{subst}
use fireisp.Prelude.{
  ◌∙◌, ℕ, ◌≡◌, refl, sym, true, false, Option, none, some, find, is_some, ◌==◌, Option-cases,
  Bool-cases, inl, inr,
}
use fireisp.Prelude.Versions.{WriteOnce, first_write}
use fireisp.Prelude.Keys.{find-own, find-replaced}
use fireisp.Store.{Db, Env, ok, Customer, ◌>>=◌}
use fireisp.Store.Compliance.{Consent}
use fireisp.Store.Ensures.{Ensures, Ensures-eq}
use fireisp.Core.{get_customer, audit}
use fireisp.Core.Actors.{Actor, may_act}
use fireisp.Compliance.Consents.{
  is_revocable, is_clean_consent, withdraw, withdraw_stored, withdraw_by, withdraw_consent,
}

-- What `withdraw_consent` has found, or has written, when it returns `c`.
record Withdrawn (before : Db) (pk : ℕ) (actor : Option Actor) (c : Consent) (db : Db)
    : Type 0 where
  original : Consent
  is_original : find (λ x. x.pk == pk) before.compliance.consents ≡ some original
  unchanged : c ≡ record original { withdrawn_at = c.withdrawn_at }
  dated : WriteOnce original.withdrawn_at c.withdrawn_at
  stored : find (λ x. x.pk == pk) db.compliance.consents ≡ some c
  customer : Customer
  is_customer : find (λ x. x.pk == c.customer) db.accounts.customers ≡ some customer
  allowed : may_act customer.user actor ≡ true
  revocable : is_revocable c.purpose ≡ true
  withdrawn : is_some c.withdrawn_at ≡ true

absent : (o : Option ℕ) → is_some o ≡ false → o ≡ none
absent none e = refl
absent (some a) e = cc

module _ (env : Env) (pk : ℕ) (actor : Option Actor) (db : Db) where
  module _ (c : Consent) (owner : Customer)
      (is_c : find (λ x. x.pk == pk) db.compliance.consents ≡ some c)
      (is_owner : find (λ x. x.pk == c.customer) db.accounts.customers ≡ some owner) where
    stored-Withdrawn :
        may_act owner.user actor ≡ true
        → is_revocable c.purpose ≡ true
        → Ensures (Withdrawn db pk actor) (withdraw_stored env pk actor c db)
    unfolding withdraw_stored withdraw audit
    stored-Withdrawn allowed revocable = elim (Bool-cases (is_some c.withdrawn_at)) [
      | inl before ↦ rw before (record {
        original = c;
        is_original = is_c;
        unchanged = refl;
        dated = λ t e. e;
        stored = is_c;
        customer = owner;
        is_customer = is_owner;
        allowed = allowed;
        revocable = revocable;
        withdrawn = before;
      })
      | inr first ↦ rw first (elim (Bool-cases (is_clean_consent env (withdraw c env.now))) [
        | inr bad ↦ rw bad tt
        | inl clean ↦ rw clean (record {
          original = c;
          is_original = is_c;
          unchanged = refl;
          dated = first_write c.withdrawn_at (some env.now) (absent c.withdrawn_at first);
          stored =
              (find-replaced (λ x. x.pk) pk pk (withdraw c env.now) db.compliance.consents
                  (find-own (λ x. x.pk) pk db.compliance.consents c is_c).0 is_c).0
                refl;
          customer = owner;
          is_customer = is_owner;
          allowed = allowed;
          revocable = revocable;
          withdrawn = refl;
        })
      ])
    ]

    by-Withdrawn : Ensures (Withdrawn db pk actor) (withdraw_by env pk actor c owner db)
    unfolding withdraw_by
    by-Withdrawn = elim (Bool-cases (may_act owner.user actor)) [
      | inr stranger ↦ rw stranger tt
      | inl allowed ↦ rw allowed (elim (Bool-cases (is_revocable c.purpose)) [
        | inr bound ↦ rw bound tt
        | inl revocable ↦ rw revocable (stored-Withdrawn allowed revocable)
      ])
    ]

  withdraw_consent-Withdrawn : Ensures (Withdrawn db pk actor) (withdraw_consent env pk actor db)
  unfolding withdraw_consent get_customer
  withdraw_consent-Withdrawn = elim (Option-cases (find (λ x. x.pk == pk) db.compliance.consents)) [
    | inl no_row ↦ rw no_row tt
    | inr (c, is_c) ↦
        rw is_c (elim (Option-cases (find (λ x. x.pk == c.customer) db.accounts.customers)) [
          | inl no_row ↦ rw (no_row, ◌>>=◌) tt
          | inr (owner, is_owner) ↦ rw (is_owner, ◌>>=◌) (by-Withdrawn c owner is_c is_owner)
        ])
  ]

Withdrawn-again :
    (env : Env) (before : Db) (pk : ℕ) (actor : Option Actor) (c : Consent) (db : Db)
    → Withdrawn before pk actor c db
    → withdraw_consent env pk actor db ≡ ok (c, db)
unfolding withdraw_consent get_customer withdraw_by withdraw_stored
Withdrawn-again env before pk actor c db h =
    rw h.stored (rw (h.is_customer, ◌>>=◌) (rw h.allowed (rw h.revocable (rw h.withdrawn refl))))

-- After a withdraw_consent that went through, the stored constancy was for marketing or direct
-- debit, is withdrawn, and differs from what was stored before in no other column; a time of
-- withdrawal that it had before stays; and a second call of the same actor, at any time, returns
-- the same constancy and leaves the database as it is.
pub withdraw_consent_again :
    (env env' : Env) (pk : ℕ) (actor : Option Actor) (original c : Consent) (db db' : Db)
    → find (λ x. x.pk == pk) db.compliance.consents ≡ some original
    → withdraw_consent env pk actor db ≡ ok (c, db')
    → (withdraw_consent env' pk actor db' ≡ ok (c, db'))
      × (find (λ x. x.pk == pk) db'.compliance.consents ≡ some c)
      × (is_revocable c.purpose ≡ true)
      × (is_some c.withdrawn_at ≡ true)
      × (c ≡ record original { withdrawn_at = c.withdrawn_at })
      × WriteOnce original.withdrawn_at c.withdrawn_at
withdraw_consent_again env env' pk actor original c db db' found run =
    let h = Ensures-eq (Withdrawn db pk actor) (withdraw_consent-Withdrawn env pk actor db) run in
    let it : some original ≡ some h.original = sym found ∙ h.is_original in
    let same : h.original ≡ original = cc in
    (
      Withdrawn-again env' db pk actor c db' h,
      h.stored,
      h.revocable,
      h.withdrawn,
      subst (λ o. c ≡ record o { withdrawn_at = c.withdrawn_at }) same h.unchanged,
      subst (λ o. WriteOnce o.withdrawn_at c.withdrawn_at) same h.dated,
    )
