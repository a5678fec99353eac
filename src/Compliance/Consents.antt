-- ===== src/Compliance/Consents.antt =====
-- compliance/services.py: `record_consent` and `withdraw_consent`, and the checks of
-- `Consent.full_clean` in compliance/models.py. A customer, a document and the columns with choices
-- are taken as read.
pub mod Laws
use fireisp.Prelude.{
  ℕ, Bool, true, false, not, ◌&&◌, ◌||◌, Option, none, some, ◌∷◌, ltb, ◌==◌, if◌then◌else◌, find,
  is_some, length, update_where,
}
use fireisp.Prelude.Text.{Text, codes, text_eq, is_empty, is_blank}
use fireisp.Calendar.{date_ltb}
use fireisp.Store.{
  Customer, M, ◌>>=◌, ◌>>◌, pure, gets, modify, raise_if, or_raise, fresh, with_compliance,
  does_not_exist, permission_denied, other_organization, not_in_force, wrong_kind, bad_record,
  not_revocable, Env,
}
use fireisp.Store.Compliance.{DocumentVersion, LegalKind, Purpose, Consent}
use fireisp.Core.{audit, get_customer}
use fireisp.Core.Actors.{Actor, signed_in, key_of, is_stranger, may_act}
use fireisp.Compliance.Gates.{is_approved_version, kind_eq}

-- `DocumentVersion.objects.select_for_update().get(pk=...)`
unfoldable pub get_version : ℕ → M DocumentVersion
get_version pk = do
  row ← gets (λ db. find (λ d. d.pk == pk) db.compliance.versions)
  or_raise does_not_exist row

-- `DocumentVersion.content_hash`
unfoldable pub content_hash : Env → DocumentVersion → Text
content_hash env d = env.sha256_hex d.content

-- `purpose in expected and document.kind != expected[purpose]`
unfoldable pub is_wrong_kind : Purpose → LegalKind → Bool
is_wrong_kind Purpose.contract kind = not (kind_eq kind LegalKind.contract)
is_wrong_kind Purpose.privacy_notice kind = not (kind_eq kind LegalKind.privacy)
is_wrong_kind _ kind = false

-- A column that may not be empty, of so many characters.
abbrev pub fits : ℕ → Text → Bool
fits n t = not (is_empty t) && not (ltb n (length t))

-- The columns of a new record and `Consent.clean`.
unfoldable pub is_clean_consent : Env → Consent → Bool
is_clean_consent env c =
    fits 30 c.channel
    && not (is_empty c.content_snapshot)
    && fits 64 c.content_hash
    && not (is_blank c.evidence)
    && text_eq c.content_hash (env.sha256_hex c.content_snapshot)

unfoldable pub new_consent :
    Env → ℕ → Customer → DocumentVersion → Purpose → Text → Text → Option Actor → Consent
new_consent env pk customer d purpose channel evidence actor = record {
  pk = pk;
  customer = customer.pk;
  document = d.pk;
  purpose = purpose;
  channel = channel;
  evidence = evidence;
  content_snapshot = d.content;
  content_hash = content_hash env d;
  accepted_at = env.now;
  withdrawn_at = none;
  recorded_by = key_of actor;
}

unfoldable pub record_consent :
    Env → Customer → DocumentVersion → Purpose → Text → Text → Option Actor → M Consent
record_consent env customer document purpose channel evidence actor = do
  d ← get_version document.pk
  raise_if (is_stranger customer.user actor) permission_denied
  raise_if (not (customer.organization == d.organization)) other_organization
  raise_if (not (is_approved_version d.status) || date_ltb (env.local_date env.now) d.effective_on)
      not_in_force
  raise_if (is_wrong_kind purpose d.kind) wrong_kind
  pk ← fresh
  let c = new_consent env pk customer d purpose channel evidence actor
  raise_if (not (is_clean_consent env c)) bad_record
  modify (with_compliance λ t. record t { consents = c ∷ t.consents })
  audit env (signed_in actor) (codes "consent.recorded") pk
  pure c

abbrev pub is_revocable : Purpose → Bool
is_revocable Purpose.marketing = true
is_revocable Purpose.autopay = true
is_revocable _ = false

unfoldable pub withdraw : Consent → ℕ → Consent
withdraw c now = record c { withdrawn_at = some now }

-- `if not record.withdrawn_at`: `save` checks the columns and `clean` once more, as on every write.
unfoldable pub withdraw_stored : Env → ℕ → Option Actor → Consent → M Consent
withdraw_stored env pk actor c = if is_some c.withdrawn_at then pure c else (do
  let c' = withdraw c env.now
  raise_if (not (is_clean_consent env c')) bad_record
  modify (
      with_compliance
        λ t. record t { consents = update_where (λ x. x.pk == pk) (λ _. c') t.consents })
  audit env (signed_in actor) (codes "consent.withdrawn") pk
  pure c')

unfoldable pub withdraw_by : Env → ℕ → Option Actor → Consent → Customer → M Consent
withdraw_by env pk actor c customer = do
  raise_if (not (may_act customer.user actor)) permission_denied
  raise_if (not (is_revocable c.purpose)) not_revocable
  withdraw_stored env pk actor c

unfoldable pub withdraw_consent : Env → ℕ → Option Actor → M Consent
withdraw_consent env pk actor = do
  row ← gets (λ db. find (λ c. c.pk == pk) db.compliance.consents)
  c ← or_raise does_not_exist row
  customer ← get_customer c.customer
  withdraw_by env pk actor c customer
