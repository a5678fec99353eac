-- ===== src/Compliance/Arco/Stages.antt =====
-- The life of a request: the diagram of its stages, what is recorded in each, and what a later
-- version of a request keeps of an earlier one.
use fireisp.Prelude.{◌≡◌, ◌≢◌, ◌⊎◌, false, refl, ◌∙◌, true, none, some, List, ◌<◌, is_some, All}
use fireisp.Prelude.Keys.{Pairwise}
use fireisp.Prelude.Versions
use fireisp.Prelude.Versions.{WriteOnce, WrittenWith, WrittenWith-trans}
use fireisp.Prelude.Text.{is_empty}
use fireisp.Store.{Db}
use fireisp.Store.Compliance.{
  ArcoStatus, pending_identity, in_review, decision_sent, completed, ArcoRequest, ArcoExtension,
}

infix 40 ◌⟶◌ ◌⟶*◌
-- The specification: a request is verified, then refused, or granted and carried out.
pub data ◌⟶◌ : ArcoStatus → ArcoStatus → Type 0 where
  verify : pending_identity ⟶ in_review
  grant : in_review ⟶ decision_sent
  refuse : in_review ⟶ completed
  carry_out : decision_sent ⟶ completed

pub data ◌⟶*◌ : ArcoStatus → ArcoStatus → Type 0 where
  here : {s : ArcoStatus} → s ⟶* s
  then : {s t u : ArcoStatus} → s ⟶* t → t ⟶ u → s ⟶* u

pub ⟶*-trans : {s t u : ArcoStatus} → s ⟶* t → t ⟶* u → s ⟶* u
⟶*-trans p here = p
⟶*-trans p (then q e) = then (⟶*-trans p q) e

-- What stands on a request in each stage.
pub record IsVerified (r : ArcoRequest) : Type 0 where
  pub verified : is_some r.identity_verified_at ≡ true
  pub due : is_some r.response_due_on ≡ true
  pub shown : is_empty r.identity_evidence ≡ false

pub record IsUndecided (r : ArcoRequest) : Type 0 where
  pub not_sent : r.decision_sent_on ≡ none
  pub not_granted : r.granted ≡ none
  pub not_completed : r.completed_on ≡ none

abbrev pub Stands : ArcoStatus → ArcoRequest → Type 0
Stands pending_identity r =
    (r.identity_verified_at ≡ none) × (is_some r.response_due_on ≡ true) × IsUndecided r
Stands in_review r = IsVerified r × IsUndecided r
Stands decision_sent r =
    IsVerified r
    × (is_some r.decision_sent_on ≡ true)
    × (r.granted ≡ some true)
    × (is_some r.implementation_due_on ≡ true)
    × (r.completed_on ≡ none)
    × (is_empty r.decision ≡ false)
Stands completed r =
    IsVerified r
    × (is_some r.decision_sent_on ≡ true)
    × (is_some r.completed_on ≡ true)
    × (is_empty r.decision ≡ false)
    × ((r.granted ≡ some false)
        ⊎ ((r.granted ≡ some true) × (is_empty r.implementation_evidence ≡ false)))

abbrev pub IsSound : ArcoRequest → Type 0
IsSound r = Stands r.status r

-- A later version of a request.
pub record Follows (r r' : ArcoRequest) : Type 0 where
  pub path : r.status ⟶* r'.status
  pub customer : r'.customer ≡ r.customer
  pub received_on : r'.received_on ≡ r.received_on
  pub request_type : r'.request_type ≡ r.request_type
  pub description : r'.description ≡ r.description
  pub verified :
      WrittenWith r.identity_verified_at r'.identity_verified_at r.identity_evidence
        r'.identity_evidence
  pub sent : WrittenWith r.decision_sent_on r'.decision_sent_on r.decision r'.decision
  pub granted : WriteOnce r.granted r'.granted
  pub closed :
      WrittenWith r.completed_on r'.completed_on r.implementation_evidence
        r'.implementation_evidence

pub Follows-refl : (r : ArcoRequest) → Follows r r
Follows-refl r = record {
  path = here;
  customer = refl;
  received_on = refl;
  request_type = refl;
  description = refl;
  verified = λ _ e. (e, refl);
  sent = λ _ e. (e, refl);
  granted = λ _ e. e;
  closed = λ _ e. (e, refl);
}

pub Follows-trans : (r s t : ArcoRequest) → Follows r s → Follows s t → Follows r t
Follows-trans r s t f g = record {
  path = ⟶*-trans f.path g.path;
  customer = g.customer ∙ f.customer;
  received_on = g.received_on ∙ f.received_on;
  request_type = g.request_type ∙ f.request_type;
  description = g.description ∙ f.description;
  verified = WrittenWith-trans f.verified g.verified;
  sent = WrittenWith-trans f.sent g.sent;
  granted = λ a e. g.granted a (f.granted a e);
  closed = WrittenWith-trans f.closed g.closed;
}

-- Every request of the first table is in the second, in the same or a later version.
abbrev pub Evolves : List ArcoRequest → List ArcoRequest → Type 0
Evolves = Versions.Evolves (λ x. x.pk) Follows

-- One extension for each stage of a request.
abbrev pub Apart : ArcoExtension → ArcoExtension → Type 0
Apart e f = e.request ≡ f.request → e.stage ≢ f.stage

pub record IsOrderly (db : Db) : Type 0 where
  pub sound : All IsSound db.compliance.arco_requests
  pub numbered : All (λ r. r.pk < db.next_pk) db.compliance.arco_requests
  pub once : Pairwise Apart db.compliance.extensions

-- An orderly database whose requests are those of `old`, in the same or a later version.
pub record After (old : List ArcoRequest) (db : Db) : Type 0 where
  pub orderly : IsOrderly db
  pub evolved : Evolves old db.compliance.arco_requests
