-- ===== src/Compliance/Notices/Laws.antt =====
-- What holds of the notices after any sequence of calls.
use fireisp.Prelude.{
  ℕ, ◌≡◌, refl, Bool, Option, some, List, true, false, arith, find, ◌∙◌, ◌==◌, not, ◌&&◌, is_some,
}
use fireisp.Prelude.Text.{Text}
use fireisp.Calendar.{Date}
use fireisp.Store.{Db, Env, ok}
use fireisp.Store.Compliance.{RegulatoryNotice}
use fireisp.Store.Ensures.{Ensures-eq}
use fireisp.Core.Actors.{Actor}
use fireisp.Compliance.Notices.{
  publish_regulatory_notice, confirm_notice_delivery, accept_regulatory_notice,
  acknowledge_notice_receipt,
}
use fireisp.Compliance.Notices.Save.{save_notice, same_notice}
use fireisp.Compliance.Notices.Versions.{Follows, Follows-refl, Evolves, same_notice-IsSame}
use fireisp.Compliance.Notices.Services.{
  After, save_notice-Leads, publish-After, confirm-After, accept-After, acknowledge-After,
}

-- The form for a notice changes any column but those of its delivery and acceptance, and a stored
-- notice only through `save`.
pub record IsEdited (db : Db) (n : RegulatoryNotice) : Type 0 where
  pub keeps :
      (o : RegulatoryNotice)
      → find (λ x. x.pk == n.pk) db.compliance.notices ≡ some o
      → (n.delivered_on ≡ o.delivered_on)
        × (n.delivery_channel ≡ o.delivery_channel)
        × (n.delivery_evidence ≡ o.delivery_evidence)
        × (n.accepted_at ≡ o.accepted_at)
        × (n.acceptance_evidence ≡ o.acceptance_evidence)

pub data Step (db db' : Db) : Type 0 where
  publish :
      (env : Env) (pk : ℕ) (actor : Option Actor) (n : RegulatoryNotice)
      → publish_regulatory_notice env pk actor db ≡ ok (n, db')
      → Step db db'
  confirm :
      (env : Env) (pk : ℕ) (actor : Option Actor) (channel evidence : Text) (on : Option Date)
      (n : RegulatoryNotice)
      → confirm_notice_delivery env pk actor channel evidence on db ≡ ok (n, db')
      → Step db db'
  accept :
      (env : Env) (pk : ℕ) (actor : Option Actor) (evidence : Text) (n : RegulatoryNotice)
      → accept_regulatory_notice env pk actor evidence db ≡ ok (n, db')
      → Step db db'
  acknowledge :
      (env : Env) (pk : ℕ) (actor : Option Actor) (n : RegulatoryNotice)
      → acknowledge_notice_receipt env pk actor db ≡ ok (n, db')
      → Step db db'
  edit : (n : RegulatoryNotice) → IsEdited db n → save_notice n db ≡ ok (tt, db') → Step db db'
  other : db'.compliance.notices ≡ db.compliance.notices → Step db db'

pub data Reach : Db → Db → Type 0 where
  here : {db : Db} → Reach db db
  then : {db db' db'' : Db} → Step db db' → Reach db' db'' → Reach db db''

none_if :
    {A : Type 0} (o : Option A) (b : Bool)
    → (is_some o && not b) ≡ false
    → is_some o ≡ true
    → b ≡ true
none_if o b h k = ground arith

edited-Follows :
    (o n : RegulatoryNotice) (db : Db)
    → IsEdited db n
    → find (λ x. x.pk == n.pk) db.compliance.notices ≡ some o
    → (is_some o.published_at && not (same_notice o n)) ≡ false
    → Follows o n
edited-Follows o n db edited found kept =
    let (day, channel, evidence, time, proof) = edited.keeps o found in
    record {
      published = λ t e.
          let is : is_some o.published_at ≡ true = rw e refl in
          (same_notice-IsSame o n (none_if o.published_at (same_notice o n) kept is)).1 ∙ e;
      shown = λ h. (same_notice-IsSame o n (none_if o.published_at (same_notice o n) kept h)).0;
      delivered = λ d e. (day ∙ e, channel, evidence);
      accepted = λ t e. (time ∙ e, proof);
    }

module _ (old : List RegulatoryNotice) where
  Step-After : (db db' : Db) → Step db db' → After old db → After old db'
  Step-After db db' (publish env pk a n run) h =
      Ensures-eq (λ _ d. After old d) ((publish-After old env pk a).at db h) run
  Step-After db db' (confirm env pk a c e o n run) h =
      Ensures-eq (λ _ d. After old d) ((confirm-After old env pk a c e o).at db h) run
  Step-After db db' (accept env pk a e n run) h =
      Ensures-eq (λ _ d. After old d) ((accept-After old env pk a e).at db h) run
  Step-After db db' (acknowledge env pk a n run) h =
      Ensures-eq (λ _ d. After old d) ((acknowledge-After old env pk a).at db h) run
  Step-After db db' (edit n edited run) h =
      Ensures-eq (λ _ d. After old d)
        ((save_notice-Leads old {Q = λ d. After old d × IsEdited d n} n
            λ d q. (q.0, λ o found kept. edited-Follows o n d q.1 found kept)).at
          db (h, edited))
        run
  Step-After db db' (other same) h = rw same h

  Reach-After : (db db' : Db) → Reach db db' → After old db → After old db'
  Reach-After db _ here h = h
  Reach-After db db' (then step rest) h = Reach-After _ db' rest (Step-After db _ step h)

-- After any sequence of calls of the services on regulatory notices, of edits by the form, and of
-- writes outside the notices, each notice that was there still is: once published it stays
-- published and shows what it showed, the service, kind, day, title, text, document, need of
-- consent, and amount and frequency of the renewal, and its delivery and its acceptance stay as
-- they were once recorded, with their evidence.
pub Reach-Evolves :
    (db db' : Db) → Reach db db' → Evolves db.compliance.notices db'.compliance.notices
Reach-Evolves db db' reach =
    Reach-After db.compliance.notices db db' reach (λ k n found. (n, found, Follows-refl n))
