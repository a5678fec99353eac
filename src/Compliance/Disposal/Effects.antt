-- ===== src/Compliance/Disposal/Effects.antt =====
-- What is left of the tables after a disposal.
use fireisp.Prelude.{ℕ, ◌≡◌, refl, Option, some, List, ◌==◌, arith, update_where}
use fireisp.Prelude.Exists.{Exists, Reflects, any-Reflects}
use fireisp.Prelude.Updates.{Aligned, Changed, update_where-Aligned}
use fireisp.Prelude.Text.{Text, codes, strip}
use fireisp.Store.{Db, Env, Journal}
use fireisp.Store.Compliance.{
  Category, support_ticket_content, arco_request_content, RetentionDisposal,
}
use fireisp.Store.Ensures.{Ensures, Ensures-bind}
use fireisp.Core.{audit}
use fireisp.Core.Actors.{Actor, key_of}
use fireisp.Compliance.Disposal.Files.{redacted}
use fireisp.Compliance.Disposal.{
  is_member, redact_tickets, redact_requests, redact, performed, save_disposal, suppress,
}

-- The contents of exactly the listed records are suppressed, and the rest of the tables is as it was.
abbrev pub Listed : List ℕ → ℕ → Type 0
Listed ids k = Exists (λ j. j ≡ k) ids

abbrev pub Gone : Category → List ℕ → Db → Db → Type 0
Gone support_ticket_content ids old new =
    Aligned
      (Changed (λ t. Listed ids t.pk)
        (λ t. record t {
          subject = codes "Ticket archivado";
          description = redacted;
          resolution = redacted;
        }))
      old.operations.tickets new.operations.tickets
    × (new.operations ≡ record old.operations { tickets = new.operations.tickets })
    × (new.compliance ≡ record old.compliance { disposals = new.compliance.disposals })
Gone arco_request_content ids old new =
    Aligned
      (Changed (λ r. Listed ids r.pk)
        (λ r. record r {
          description = redacted;
          identity_evidence = redacted;
          decision = redacted;
          implementation_evidence = redacted;
        }))
      old.compliance.arco_requests new.compliance.arco_requests
    × Aligned
        (Changed (λ e. Listed ids e.request)
          (λ e. record e { reason = redacted; notification_evidence = redacted }))
        old.compliance.extensions new.compliance.extensions
    × (new.operations ≡ old.operations)
    × (new.compliance ≡ record old.compliance {
      arco_requests = new.compliance.arco_requests;
      extensions = new.compliance.extensions;
      disposals = new.compliance.disposals;
    })

-- What a disposal writes.
pub record Removed (env : Env) (actor : Option Actor) (evidence : Text) (p p' : RetentionDisposal)
    (old new : Db) : Type 0 where
  pub gone : Gone p.category p.record_ids old new
  pub accounts : new.accounts ≡ old.accounts
  pub review : p' ≡ record p {
    performed_at = some env.now;
    performed_by = key_of actor;
    external_copies_evidence = strip evidence;
  }
  pub reviews :
      Aligned
        (Changed (λ x. x.pk ≡ p.pk) (λ _. p'))
        old.compliance.disposals
        new.compliance.disposals

is_member-Listed : (ids : List ℕ) (k : ℕ) → Reflects (is_member ids k) (Listed ids k)
is_member-Listed ids k =
    any-Reflects (λ j. j == k) (λ j. j ≡ k) ids
      λ j. (λ h. ground (arith, h), λ h. ground (arith, h))

-- The redaction of the contents, whatever is written on the reviews and in the journal behind it.
redact-Gone :
    (category : Category) (ids : List ℕ) (old : Db)
    (ds : List RetentionDisposal → List RetentionDisposal)
    → Ensures
        (λ _ d.
          ((j : Journal)
            → Gone category ids old (record d {
              compliance = record d.compliance { disposals = ds d.compliance.disposals };
              journal = j;
            }))
          × (d.accounts ≡ old.accounts)
          × (d.compliance.disposals ≡ old.compliance.disposals))
        (redact category ids old)
unfolding redact redact_tickets redact_requests
redact-Gone support_ticket_content ids old ds = (
  λ _. (
    update_where-Aligned (λ t. is_member ids t.pk) (λ t. Listed ids t.pk) _ old.operations.tickets
        (λ t. is_member-Listed ids t.pk),
    refl,
    refl,
  ),
  refl,
  refl,
)
redact-Gone arco_request_content ids old ds = (
  λ _. (
    update_where-Aligned (λ r. is_member ids r.pk) (λ r. Listed ids r.pk) _
        old.compliance.arco_requests (λ r. is_member-Listed ids r.pk),
    update_where-Aligned (λ e. is_member ids e.request) (λ e. Listed ids e.request) _
        old.compliance.extensions (λ e. is_member-Listed ids e.request),
    refl,
    refl,
  ),
  refl,
  refl,
)

pub suppress-Removed :
    (env : Env) (actor : Option Actor) (evidence : Text) (p : RetentionDisposal) (db : Db)
    → Ensures (λ p' d. Removed env actor evidence p p' db d) (suppress env p actor evidence db)
unfolding suppress performed save_disposal audit
suppress-Removed env actor evidence p db =
    let p' = performed p env actor evidence in
    let close = update_where (λ x. x.pk == p.pk) (λ _. p') in
    Ensures-bind _ (λ p' d. Removed env actor evidence p p' db d) (redact p.category p.record_ids) _
      db (redact-Gone p.category p.record_ids db close)
      (λ _ d (gone, accounts, reviews). record {
        gone = gone _;
        accounts = accounts;
        review = refl;
        reviews = rw reviews (
            update_where-Aligned (λ x. x.pk == p.pk) (λ x. x.pk ≡ p.pk) (λ _. p')
              db.compliance.disposals (λ x. (λ h. ground (arith, h), λ h. ground (arith, h))));
      })
