-- ===== src/Activation/Tests.antt =====
-- The first activation of a service in production, with its file complete.
use fireisp.Prelude.{ℕ, ◌≡◌, refl, true, false, none, some, [], ◌∷◌, map}
use fireisp.Core.{
  audit, publish, get_customer, get_organization, get_subscription, get_plan, save_subscription,
}
use fireisp.Compliance.Gates.{
  required_codes, is_expired, is_valid, counts, missing_records, invalid_records, readiness,
  requirements_of, legal_readiness, require_legal_readiness, snapshot, snapshot_eq, is_registered,
  registration_of, check_registration, require_plan_registration, in_force, check_documents,
  require_customer_documents,
}
use fireisp.Operations.Installation.{
  is_finished, finished_work, cpes, eirp_dbm, within_eirp, is_clean_site, is_clean_sector, site_of,
  sector_of, service_organization, is_clean_equipment, is_verified, is_documented, is_licensed,
  check_item, check_items, serves, is_live, has_session, check_installation,
  require_installation_readiness,
}
use fireisp.Activation.{pass_gates, activated, open_service, activate_subscription}
use fireisp.Billing.Periods.{
  check_period, is_period, period_invoice, enter_period, bill_period, create_period, last_invoice,
  sum_available, customer_credit, renewal_end, renew_subscription,
}
use fireisp.Billing.Account.{
  unreleased, release_suspension, resume_nonpayment, paid_through, subscription_invoices,
  refresh_subscription, refresh_all, affected, allocate_customer,
}
use fireisp.Billing.Allocate.{
  start_ltb, start_eq, invoice_leb, payment_leb, open_invoices, usable_payments, pay, pay_invoice,
  set_status, settle, settle_all, allocate,
}
use fireisp.Billing.Balances.{
  is_reversed, allocated, paid_amount, credited, refunds_invoice, refunded, balance, available,
}
use fireisp.Billing.Money.{money, round_half_up, net_of_tax}
use fireisp.Calendar.{days_in_month, date_eq, date_leb, date_ltb, anniversary}
use fireisp.Prelude.Text.{Text, codes, text_eq, strip, show_ℕ}
use fireisp.Prelude.Sort.{order_by}
use fireisp.Prelude.Int.{pos, leb_ℤ, ◌+ℤ◌, ◌-ℤ◌, sub_ℕ, is_positive, min_ℤ}
use fireisp.Store.{Subscription, pending, Organization, Customer, Plan, Db, Result, ok}
use fireisp.Store.Compliance.{
  LegalRequirement, ReviewStatus, DocumentVersion, LegalKind, VersionStatus, Consent, Purpose,
  PlanRegistration,
}
use fireisp.Store.Field.{
  WorkOrder, WorkKind, WorkStatus, Site, PermitStatus, Sector, Equipment, Role, EquipmentStatus,
}
use fireisp.Activation.Laws.{IsCleared, activate_subscription-IsCleared}
use fireisp.Billing.Tests.Samples.{day, env, start, value_of, db_of}

abbrev isp : Organization
isp = record { pk = 1; demo_mode = false }

abbrev subscriber : Customer
subscriber = record { pk = 7; organization = 1; user = some 70 }

abbrev basic : Plan
basic = record {
  pk = 4;
  organization = 1;
  name = codes "B";
  download_mbps = 50;
  upload_mbps = 10;
  price_mxn = 34800;
  tax_rate = 160;
}

abbrev service : Subscription
service = record {
  pk = 5;
  customer = 7;
  plan = 4;
  status = pending;
  activated_at = none;
  paid_until = none;
  access_username = codes "u5";
}

abbrev requirement : Text × Text → LegalRequirement
requirement c = record {
  organization = 1;
  code = c.0;
  title = c.1;
  applicable = true;
  production_required = true;
  status = ReviewStatus.approved;
  evidence = codes "folio";
  reviewed_by = some 1;
  reviewed_at = some 1;
  expires_on = none;
}

abbrev version : ℕ → LegalKind → DocumentVersion
version pk kind = record {
  pk = pk;
  organization = 1;
  kind = kind;
  version = codes "1";
  content = codes "texto";
  effective_on = day 1;
  status = VersionStatus.approved;
}

abbrev consent : ℕ → ℕ → Purpose → Consent
consent pk document purpose = record {
  pk = pk;
  customer = 7;
  document = document;
  purpose = purpose;
  channel = codes "portal";
  evidence = codes "firma";
  content_snapshot = codes "texto";
  content_hash = codes "texto";
  accepted_at = 1;
  withdrawn_at = none;
  recorded_by = none;
}

abbrev registration : PlanRegistration
registration = record {
  plan = 4;
  tariff_reference = codes "T-1";
  registered_on = day 1;
  effective_on = day 1;
  expires_on = none;
  evidence = codes "folio";
  approved = true;
  reviewed_by = some 1;
  reviewed_at = some 1;
  plan_snapshot = some (record {
    organization = 1;
    name = codes "B";
    download_mbps = 50;
    upload_mbps = 10;
    price_mxn = 34800;
    tax_rate = 160;
  });
}

abbrev work : WorkOrder
work = record {
  pk = 2;
  subscription = 5;
  kind = WorkKind.installation;
  status = WorkStatus.completed;
  completion_evidence = codes "pruebas";
  completed_at = some 1;
}

abbrev tower : Site
tower = record {
  pk = 1;
  organization = 1;
  latitude = none;
  longitude = none;
  owner_permission = codes "renta";
  permit_status = PermitStatus.approved;
  permit_evidence = codes "folio";
  permit_expires_on = none;
}

abbrev north : Sector
north = record {
  pk = 1;
  site = 1;
  frequency_mhz = some 5800;
  channel_width_mhz = some 20;
  dfs_required = false;
  dfs_enabled = false;
  tpc_required = false;
  tpc_enabled = false;
  regulatory_basis = codes "DOF";
}

abbrev antenna : Equipment
antenna = record {
  pk = 1;
  organization = 1;
  role = Role.cpe;
  sector = some 1;
  subscription = some 5;
  status = EquipmentStatus.installed;
  homologation_certificate = codes "IFT";
  homologation_verified = true;
  homologation_evidence = codes "folio";
  regulatory_profile = codes "Mexico";
  tx_power_dbm = some (pos 2000);
  antenna_gain_dbi = some (pos 1600);
  cable_loss_db = 100;
  allowed_eirp_dbm = some (pos 3600);
}

abbrev ready : Db
ready = record start {
  accounts = record start.accounts { plans = basic ∷ []; subscriptions = service ∷ [] };
  ledger = record start.ledger { invoices = []; payments = []; allocations = [] };
  compliance = record start.compliance {
    requirements = map requirement required_codes;
    versions = version 1 LegalKind.contract ∷ version 2 LegalKind.privacy ∷ [];
    consents = consent 1 1 Purpose.contract ∷ consent 2 2 Purpose.privacy_notice ∷ [];
    registrations = registration ∷ [];
  };
  field = record {
    work_orders = work ∷ [];
    sites = tower ∷ [];
    sectors = north ∷ [];
    equipment = antenna ∷ [];
    access =
        record {
          subscription = 5;
          username = codes "u5";
          enabled = true;
          is_lab = false;
          expires_at = none;
          router = 1;
          router_is_lab = false;
          router_organization = 1;
        }
        ∷ [];
    sessions =
        record { router = 1; username = codes "u5"; stopped_at = none; updated_at = 8999900 } ∷ [];
  };
}

abbrev activation : Result (Subscription × Db)
activation = activate_subscription env 5 none ready

activation_runs : activation ≡ ok (value_of service activation, db_of ready activation)
unfolding audit publish get_customer get_organization get_subscription get_plan save_subscription
    is_expired is_valid counts missing_records invalid_records readiness requirements_of
    legal_readiness require_legal_readiness snapshot snapshot_eq is_registered registration_of
    check_registration require_plan_registration in_force check_documents require_customer_documents
    is_finished finished_work cpes eirp_dbm within_eirp is_clean_site is_clean_sector site_of
    sector_of service_organization is_clean_equipment is_verified is_documented is_licensed
    check_item check_items serves is_live has_session check_installation
    require_installation_readiness pass_gates activated open_service activate_subscription
    check_period is_period period_invoice enter_period bill_period create_period last_invoice
    sum_available customer_credit renewal_end renew_subscription unreleased release_suspension
    resume_nonpayment paid_through subscription_invoices refresh_subscription refresh_all affected
    allocate_customer start_ltb start_eq invoice_leb payment_leb open_invoices usable_payments pay
    pay_invoice set_status settle settle_all allocate is_reversed allocated paid_amount credited
    refunds_invoice refunded balance available money round_half_up net_of_tax days_in_month date_eq
    date_leb date_ltb anniversary text_eq strip show_ℕ order_by leb_ℤ ◌+ℤ◌ ◌-ℤ◌ sub_ℕ is_positive
    min_ℤ
activation_runs = refl

activate_subscription-IsCleared_example : IsCleared env service isp subscriber ready
activate_subscription-IsCleared_example =
    activate_subscription-IsCleared env 5 none service (value_of service activation) isp subscriber
      ready (db_of ready activation) refl refl refl refl refl activation_runs
