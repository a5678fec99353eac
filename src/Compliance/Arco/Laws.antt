-- ===== src/Compliance/Arco/Laws.antt =====
-- What holds after any sequence of calls of the services on requests.
use fireisp.Prelude.{ℕ, ◌≡◌, ◌≤◌, ◌<◌, Bool, Option, arith, All-map}
use fireisp.Prelude.Text.{Text}
use fireisp.Calendar.{Date}
use fireisp.Store.{Db, Customer, Env, ok}
use fireisp.Store.Ensures.{Ensures-eq}
use fireisp.Store.Compliance.{RequestType, ArcoRequest, Stage, ArcoExtension}
use fireisp.Core.Actors.{Actor}
use fireisp.Compliance.Arco.{
  create_arco_request, verify_arco_identity, respond_arco, extend_arco, complete_arco,
}
use fireisp.Compliance.Arco.Stages.{IsOrderly, Evolves, Follows-refl, After}
use fireisp.Compliance.Arco.Services.{
  create-After, verify-After, respond-After, complete-After, extend-After,
}

-- A call that went through, or a write that leaves the requests and their extensions alone.
pub data Step (db db' : Db) : Type 0 where
  create :
      (env : Env) (c : Customer) (kind : RequestType) (description : Text) (actor : Option Actor)
      (r : ArcoRequest)
      → create_arco_request env c kind description actor db ≡ ok (r, db')
      → Step db db'
  verify :
      (env : Env) (pk : ℕ) (actor : Option Actor) (evidence : Text) (r : ArcoRequest)
      → verify_arco_identity env pk actor evidence db ≡ ok (r, db')
      → Step db db'
  respond :
      (env : Env) (pk : ℕ) (actor : Option Actor) (decision : Text) (granted : Bool)
      (sent : Option Date) (r : ArcoRequest)
      → respond_arco env pk actor decision granted sent db ≡ ok (r, db')
      → Step db db'
  extend :
      (env : Env) (pk : ℕ) (actor : Option Actor) (stage : Option Stage) (reason evidence : Text)
      (notified : Option Date) (e : ArcoExtension)
      → extend_arco env pk actor stage reason evidence notified db ≡ ok (e, db')
      → Step db db'
  complete :
      (env : Env) (pk : ℕ) (actor : Option Actor) (evidence : Text) (r : ArcoRequest)
      → complete_arco env pk actor evidence db ≡ ok (r, db')
      → Step db db'
  other :
      db'.compliance.arco_requests ≡ db.compliance.arco_requests
      → db'.compliance.extensions ≡ db.compliance.extensions
      → db.next_pk ≤ db'.next_pk
      → Step db db'

pub data Reach : Db → Db → Type 0 where
  here : {db : Db} → Reach db db
  then : {db db' db'' : Db} → Step db db' → Reach db' db'' → Reach db db''

module _ {old : _} where
  Step-After : (db db' : Db) → Step db db' → After old db → After old db'
  Step-After db db' (create env c kind d a r run) h =
      Ensures-eq (λ _ d. After old d) ((create-After old env c kind d a).at db h) run
  Step-After db db' (verify env pk a e r run) h =
      Ensures-eq (λ _ d. After old d) ((verify-After old env pk a e).at db h) run
  Step-After db db' (respond env pk a d g s r run) h =
      Ensures-eq (λ _ d. After old d) ((respond-After old env pk a d g s).at db h) run
  Step-After db db' (extend env pk a s r e n x run) h =
      Ensures-eq (λ _ d. After old d) ((extend-After old env pk a s r e n).at db h) run
  Step-After db db' (complete env pk a e r run) h =
      Ensures-eq (λ _ d. After old d) ((complete-After old env pk a e).at db h) run
  Step-After db db' (other same extensions later) h = record {
    orderly = record {
      sound = rw same h.orderly.sound;
      numbered = rw same (
          All-map (λ x. x.pk < db.next_pk) (λ x. x.pk < db'.next_pk) db.compliance.arco_requests
            (λ _ lt. omega arith) h.orderly.numbered);
      once = rw extensions h.orderly.once;
    };
    evolved = rw same h.evolved;
  }

  Reach-After : (db db' : Db) → Reach db db' → After old db → After old db'
  Reach-After db _ here h = h
  Reach-After db db' (then step rest) h = Reach-After _ db' rest (Step-After db _ step h)

-- From an orderly database, any sequence of calls of the services on ARCO requests, mixed with any
-- other writes outside the requests and their extensions, leads to an orderly one: what stands on
-- each request is what its stage asks for (evidence with each verification, a decision with each
-- answer, evidence of what was done with each granted request that is completed), and no stage of
-- a request is extended twice. Each request that was there still is, it has only moved forward
-- along the diagram (verified, then refused, or granted and carried out), its customer, kind,
-- description and day are the same, and once written the time of its verification stays with its
-- evidence, the day of its answer with its decision, whether it was granted, and the day of its
-- end with the evidence of what was done.
pub Reach-IsOrderly :
    (db db' : Db)
    → IsOrderly db
    → Reach db db'
    → IsOrderly db' × Evolves db.compliance.arco_requests db'.compliance.arco_requests
Reach-IsOrderly db db' orderly reach =
    let h =
      Reach-After {old = db.compliance.arco_requests} db db' reach
        (record { orderly = orderly; evolved = λ k r found. (r, found, Follows-refl r) }) in
    (h.orderly, h.evolved)
