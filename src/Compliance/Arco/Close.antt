-- ===== src/Compliance/Arco/Close.antt =====
-- A request can always be closed: nothing blocks the way from its receipt to an answer.
use fireisp.Prelude.{
  ℕ, ◌≡◌, refl, sym, ap, ◌∙◌, true, false, Option, none, some, ◌∷◌, ◌==◌, arith, find, update_where,
}
use fireisp.Prelude.Keys.{find-own, find-replaced}
use fireisp.Prelude.Text.{Text, codes, is_blank}
use fireisp.Calendar.{Date, date_ltb}
use fireisp.Store.{Db, Journal, Customer, Env, ok, ◌>>=◌}
use fireisp.Store.Compliance.{ArcoRequest, pending_identity, completed}
use fireisp.Core.{audit}
use fireisp.Core.Actors.{Actor, signed_in}
use fireisp.Core.Reads.{get_customer_found}
use fireisp.Compliance.Arco.{
  get_arco, save_arco, verified, verify_arco_identity, is_pending_identity, implementation_due,
  responded, respond_arco,
}

-- The state in which a request was saved and an event was entered.
unfoldable pub saved : ArcoRequest → Journal → Db → Db
saved r j db = record db {
  compliance = record db.compliance {
    arco_requests = update_where (λ x. x.pk == r.pk) (λ _. r) db.compliance.arco_requests;
  };
  journal = j;
}

saved_found :
    (pk : ℕ) (r r' : ArcoRequest) (j : Journal) (db : Db)
    → r'.pk ≡ r.pk
    → find (λ x. x.pk == pk) db.compliance.arco_requests ≡ some r
    → find (λ x. x.pk == pk) (saved r' j db).compliance.arco_requests ≡ some r'
unfolding saved
saved_found pk r r' j db same found =
    let rows = db.compliance.arco_requests in
    let own = (find-own (λ x. x.pk) pk rows r found).0 in
    (find-replaced (λ x. x.pk) r'.pk pk r' rows refl found).0 (sym own ∙ sym same)

get_arco_found :
    (pk : ℕ) (r : ArcoRequest) (db : Db)
    → find (λ x. x.pk == pk) db.compliance.arco_requests ≡ some r
    → get_arco pk db ≡ ok (r, db)
unfolding get_arco
get_arco_found pk r db found = rw found

date_ltb_irrefl : (d : Date) → date_ltb d d ≡ false
unfolding date_ltb
date_ltb_irrefl d = ground arith

abbrev noted : Env → Option Actor → Text → ℕ → Journal → Journal
noted env actor action target j = record j {
  audits =
      record { at = env.now; actor = signed_in actor; action = action; target = target } ∷ j.audits;
}

verify_runs :
    (env : Env) (pk : ℕ) (actor : Option Actor) (evidence : Text) (r : ArcoRequest) (db : Db)
    → find (λ x. x.pk == pk) db.compliance.arco_requests ≡ some r
    → r.status ≡ pending_identity
    → is_blank evidence ≡ false
    → (j : Journal) × (verify_arco_identity env pk actor evidence db
        ≡ ok (verified r env.now evidence, saved (verified r env.now evidence) j db))
unfolding verify_arco_identity save_arco audit saved
verify_runs env pk actor evidence r db found pending proof =
    let e = get_arco_found pk r db found in
    let open_request : is_pending_identity r.status ≡ true = ap is_pending_identity pending in
    (
      noted env actor (codes "arco.identity_verified") r.pk db.journal,
      rw (◌>>=◌, e, proof, open_request) refl,
    )

refuse_runs :
    (env : Env) (pk : ℕ) (actor : Option Actor) (decision : Text) (r : ArcoRequest) (c : Customer)
    (now : ℕ) (evidence : Text) (db : Db)
    → find (λ x. x.pk == pk) db.compliance.arco_requests ≡ some (verified r now evidence)
    → find (λ c. c.pk == r.customer) db.accounts.customers ≡ some c
    → is_blank decision ≡ false
    → date_ltb (env.local_date env.now) r.received_on ≡ false
    → (j : Journal) × (respond_arco env pk actor decision false none db ≡ (
        let r' = responded (verified r now evidence) decision false (env.local_date env.now) none in
        ok (r', saved r' j db)))
unfolding respond_arco save_arco audit saved implementation_due verified responded
refuse_runs env pk actor decision r c now evidence db found is_c proof in_time =
    let e = get_arco_found pk (verified r now evidence) db found in
    let ec = get_customer_found r.customer c db is_c in
    (
      noted env actor (codes "arco.responded") r.pk db.journal,
      rw (◌>>=◌, e, proof, in_time, date_ltb_irrefl (env.local_date env.now), ec) refl,
    )

-- A stored request whose identity is pending can be closed: with any evidence and any answer that
-- are not blank, verify_arco_identity and then a refusal by respond_arco, on a day that is not
-- before its receipt and with its customer stored, both succeed and leave it completed.
pub arco_can_be_closed :
    (env env' : Env) (pk : ℕ) (actor : Option Actor) (evidence decision : Text) (r : ArcoRequest)
    (c : Customer) (db : Db)
    → find (λ x. x.pk == pk) db.compliance.arco_requests ≡ some r
    → r.status ≡ pending_identity
    → find (λ c. c.pk == r.customer) db.accounts.customers ≡ some c
    → is_blank evidence ≡ false
    → is_blank decision ≡ false
    → date_ltb (env'.local_date env'.now) r.received_on ≡ false
    → (r' : ArcoRequest) × (db' : Db) × ((verify_arco_identity env pk actor evidence >>= λ _.
            respond_arco env' pk actor decision false none)
          db
        ≡ ok (r', db'))
      × (r'.status ≡ completed)
      × (find (λ x. x.pk == pk) db'.compliance.arco_requests ≡ some r')
arco_can_be_closed env env' pk actor evidence decision r c db found pending is_c proof answer
      in_time =
    let v = verified r env.now evidence in
    let (j, verifies) = verify_runs env pk actor evidence r db found pending proof in
    let found' = saved_found pk r v j db (unfold verified in refl) found in
    let (k, refuses) =
      refuse_runs env' pk actor decision r c env.now evidence (saved v j db) found'
        (unfold saved in is_c) answer in_time in
    let r' = responded v decision false (env'.local_date env'.now) none in
    (
      r',
      saved r' k (saved v j db),
      rw (◌>>=◌, verifies, refuses) refl,
      unfold responded in refl,
      saved_found pk v r' k (saved v j db) (unfold responded in refl) found',
    )
