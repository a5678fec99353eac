-- ===== src/Compliance/Tests/Samples.antt =====
-- A customer with a request about personal data, a published notice and a review of its files.
use fireisp.Prelude.{true, Option, none, some, [], ◌∷◌}
use fireisp.Prelude.Text.{codes}
use fireisp.Store.{Db, Customer}
use fireisp.Store.Compliance.{
  ArcoRequest, access, pending_identity, RetentionPolicy, RetentionDisposal, RegulatoryNotice,
  contract_change, arco_request_content, Compliance,
}
use fireisp.Core.Actors.{Actor}
use fireisp.Billing.Tests.Samples.{day, start}

abbrev pub clerk : Option Actor
clerk = some (record { pk = some 1; is_authenticated = true; is_staff = true })

abbrev pub owner : Customer
owner = record { pk = 7; organization = 1; user = some 70 }

abbrev pub request : ArcoRequest
request = record {
  pk = 3;
  customer = 7;
  request_type = access;
  description = codes "datos";
  received_on = day 1;
  identity_verified_at = none;
  identity_evidence = [];
  status = pending_identity;
  response_due_on = some (day 3);
  decision = [];
  decision_sent_on = none;
  granted = none;
  implementation_due_on = none;
  completed_on = none;
  implementation_evidence = [];
}

abbrev pub notice : RegulatoryNotice
notice = record {
  pk = 4;
  subscription = 5;
  kind = contract_change;
  effective_on = day 5;
  title = codes "Aviso";
  body = codes "Cambio";
  requires_consent = true;
  renewal_amount_mxn = none;
  renewal_frequency = [];
  document = none;
  notification = none;
  published_at = none;
  delivery_channel = [];
  delivered_on = none;
  delivery_evidence = [];
  accepted_at = none;
  acceptance_evidence = [];
}

-- A policy of one day, and a review of no file.
abbrev pub policy : RetentionPolicy
policy = record {
  organization = 1;
  category = codes "arco_request_content";
  lawful_basis = codes "ley";
  retention_days = 1;
  disposal_method = codes "borrado";
  approved = true;
  reviewed_on = some (day 1);
}

abbrev pub review : RetentionDisposal
review = record {
  pk = 6;
  customer = 7;
  category = arco_request_content;
  record_ids = [];
  snapshot_hash = [];
  expires_at = 9000001;
  created_by = some 1;
  performed_at = none;
  performed_by = none;
  external_copies_evidence = [];
}

abbrev pub papers : Compliance
papers = record start.compliance {
  arco_requests = request ∷ [];
  retention_policies = policy ∷ [];
  notices = notice ∷ [];
  disposals = review ∷ [];
}

abbrev pub office : Db
office = record start { compliance = papers }
