-- ===== src/Compliance/Tests/Constancies.antt =====
-- A customer takes back the permission for advertisements.
use fireisp.Prelude.{◌≡◌, refl, true, some, none, [], ◌∷◌, find, is_some, ◌==◌}
use fireisp.Prelude.Text.{codes, strip, text_eq}
use fireisp.Prelude.Versions.{WriteOnce}
use fireisp.Store.{Db, ok}
use fireisp.Store.Compliance.{Consent, Purpose}
use fireisp.Core.{audit, get_customer}
use fireisp.Core.Actors.{may_act}
use fireisp.Compliance.Consents.{
  is_revocable, is_clean_consent, withdraw, withdraw_stored, withdraw_by, withdraw_consent,
}
use fireisp.Compliance.Consents.Laws.{withdraw_consent_again}
use fireisp.Billing.Tests.Samples.{env, db_of}
use fireisp.Compliance.Tests.Samples.{clerk, papers, office}

abbrev permission : Consent
permission = record {
  pk = 3;
  customer = 7;
  document = 1;
  purpose = Purpose.marketing;
  channel = codes "web";
  evidence = codes "x";
  content_snapshot = codes "y";
  content_hash = codes "y";
  accepted_at = 100;
  withdrawn_at = none;
  recorded_by = none;
}

abbrev archive : Db
archive = record office { compliance = record papers { consents = permission ∷ [] } }

abbrev refused : Consent
refused = withdraw permission env.now

abbrev later : Db
later = db_of archive (withdraw_consent env 3 clerk archive)

withdraw_consent_again_example :
    (withdraw_consent env 3 clerk later ≡ ok (refused, later))
    × (find (λ x. x.pk == 3) later.compliance.consents ≡ some refused)
    × (is_revocable refused.purpose ≡ true)
    × (is_some refused.withdrawn_at ≡ true)
    × (refused ≡ record permission { withdrawn_at = refused.withdrawn_at })
    × WriteOnce permission.withdrawn_at refused.withdrawn_at
unfolding withdraw_consent withdraw_by withdraw_stored withdraw get_customer audit may_act
    is_clean_consent strip text_eq
withdraw_consent_again_example =
    withdraw_consent_again env env 3 clerk permission refused archive later refl refl
