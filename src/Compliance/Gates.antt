-- ===== src/Compliance/Gates.antt =====
-- compliance/services.py: what must be verified before a service is sold and activated,
-- `legal_readiness`, `require_plan_registration` and `require_customer_documents`.
pub mod Laws
pub mod Documents
use fireisp.Prelude.{
  ℕ, Bool, true, false, not, ◌&&◌, ◌||◌, Option, none, some, List, [], ◌∷◌, ◌++◌, map, ◌==◌,
  if◌then◌else◌, find, any, select, is_some,
}
use fireisp.Prelude.Text.{Text, codes, text_eq, is_empty, is_blank}
use fireisp.Calendar.{Date, date_leb, date_ltb}
use fireisp.Store.{
  Organization, Plan, Subscription, Result, M, ◌>>=◌, ◌>>◌, pure, gets, raise_if, or_raise,
  does_not_exist, not_ready, no_plan_registration, no_customer_documents, Env, Db,
}
use fireisp.Store.Compliance.{
  LegalRequirement, ReviewStatus, approved, DocumentVersion, LegalKind, VersionStatus, Consent,
  Purpose, PlanSnapshot, PlanRegistration, Compliance,
}
use fireisp.Core.{get_customer, get_organization, get_plan}

-- `expires_on and expires_on < today`
unfoldable pub is_expired : Option Date → Date → Bool
is_expired none today = false
is_expired (some d) today = date_ltb d today

-- `REQUIRED_PRODUCTION_CODES`
abbrev pub required_codes : List (Text × Text)
required_codes =
    (codes "service_title", codes "Título habilitante para prestar el servicio")
    ∷ (codes "tariff_registration", codes "Tarifas registradas")
    ∷ (codes "contract_registration", codes "Contrato PROFECO/RPC")
    ∷ (codes "privacy_notice", codes "Aviso y procedimiento de privacidad")
    ∷ (codes "radio_compliance", codes "Equipos y bandas de radio verificados")
    ∷ (codes "site_permissions", codes "Expedientes de sitios verificados")
    ∷ []

-- The codes that always apply.
abbrev pub mandatory_codes : List Text
mandatory_codes =
    codes "service_title"
    ∷ codes "tariff_registration"
    ∷ codes "contract_registration"
    ∷ codes "privacy_notice"
    ∷ []

abbrev pub is_approved : ReviewStatus → Bool
is_approved ReviewStatus.approved = true
is_approved _ = false

-- `valid` in the loop of `legal_readiness`.
unfoldable pub is_valid : List Text → Date → LegalRequirement → Bool
is_valid mandatory today r =
    not (is_blank r.evidence)
    && is_approved r.status
    && is_some r.reviewed_by
    && is_some r.reviewed_at
    && (r.applicable || not (any (text_eq r.code) mandatory))
    && not (is_expired r.expires_on today)

-- The records that the loop does not skip.
unfoldable pub counts : List (Text × Text) → LegalRequirement → Bool
counts required r = r.production_required || any (λ c. text_eq r.code c.0) required

pub record Readiness : Type 0 where
  pub ready : Bool
  pub missing : List Text
  pub demo_mode : Bool

unfoldable pub missing_records : List (Text × Text) → List LegalRequirement → List Text
missing_records required rows =
    map (λ c. c.1) (select (λ c. not (any (λ r. text_eq r.code c.0) rows)) required)

unfoldable pub invalid_records :
    List (Text × Text) → List Text → Date → List LegalRequirement → List Text
invalid_records required mandatory today rows =
    map (λ r. r.title) (select (λ r. counts required r && not (is_valid mandatory today r)) rows)

abbrev pub is_nil : List Text → Bool
is_nil [] = true
is_nil (_ ∷ _) = false

-- The body of `legal_readiness`, from the organization's records.
unfoldable pub readiness : Organization → Date → List LegalRequirement → Readiness
readiness o today rows =
    let missing =
      missing_records required_codes rows
      ++ invalid_records required_codes mandatory_codes today rows in
    record { ready = is_nil missing; missing = missing; demo_mode = o.demo_mode }

unfoldable pub requirements_of : ℕ → List LegalRequirement → List LegalRequirement
requirements_of organization rs = select (λ r. r.organization == organization) rs

unfoldable pub legal_readiness : Env → Organization → Compliance → Readiness
legal_readiness env o c = readiness o (env.local_date env.now) (requirements_of o.pk c.requirements)

unfoldable pub require_legal_readiness : Env → Organization → M Readiness
require_legal_readiness env o = do
  r ← gets (λ db. legal_readiness env o db.compliance)
  raise_if (not o.demo_mode && not r.ready) not_ready
  pure r

-- `PlanRegistration.snapshot`
unfoldable pub snapshot : Plan → PlanSnapshot
snapshot plan = record {
  organization = plan.organization;
  name = plan.name;
  download_mbps = plan.download_mbps;
  upload_mbps = plan.upload_mbps;
  price_mxn = plan.price_mxn;
  tax_rate = plan.tax_rate;
}

unfoldable pub snapshot_eq : PlanSnapshot → PlanSnapshot → Bool
snapshot_eq a b =
    a.organization == b.organization
    && text_eq a.name b.name
    && a.download_mbps == b.download_mbps
    && a.upload_mbps == b.upload_mbps
    && a.price_mxn == b.price_mxn
    && a.tax_rate == b.tax_rate

-- The long condition of `require_plan_registration`, turned around.
unfoldable pub is_registered : Plan → Date → PlanRegistration → Bool
is_registered plan today r =
    is_some r.reviewed_by
    && is_some r.reviewed_at
    && not (is_blank r.evidence)
    && not (is_blank r.tariff_reference)
    && date_leb r.registered_on today
    && date_leb r.effective_on today
    && not (is_expired r.expires_on today)
    && elim r.plan_snapshot [ none ↦ false | some p ↦ snapshot_eq p (snapshot plan) ]

unfoldable pub registration_of : Plan → List PlanRegistration → Option PlanRegistration
registration_of plan rs = find (λ r. r.plan == plan.pk && r.approved) rs

-- What the gates return: whether they were passed, or waived in the demonstration.
pub record Gate : Type 0 where
  pub ready : Bool
  pub demo_mode : Bool

abbrev pub waived : Gate
waived = record { ready = false; demo_mode = true }

abbrev pub passed : Gate
passed = record { ready = true; demo_mode = false }

unfoldable pub check_registration : Env → Plan → M Gate
check_registration env plan = do
  row ← gets (λ db. registration_of plan db.compliance.registrations)
  r ← or_raise no_plan_registration row
  raise_if (not (is_registered plan (env.local_date env.now) r)) no_plan_registration
  pure passed

unfoldable pub require_plan_registration : Env → Plan → M Gate
require_plan_registration env plan = do
  o ← get_organization plan.organization
  if o.demo_mode then pure waived else check_registration env plan

abbrev pub is_approved_version : VersionStatus → Bool
is_approved_version VersionStatus.approved = true
is_approved_version _ = false

abbrev pub kind_eq : LegalKind → LegalKind → Bool
kind_eq LegalKind.contract LegalKind.contract = true
kind_eq LegalKind.privacy LegalKind.privacy = true
kind_eq LegalKind.rights LegalKind.rights = true
kind_eq LegalKind.network LegalKind.network = true
kind_eq _ _ = false

abbrev pub purpose_eq : Purpose → Purpose → Bool
purpose_eq Purpose.contract Purpose.contract = true
purpose_eq Purpose.privacy_notice Purpose.privacy_notice = true
purpose_eq Purpose.marketing Purpose.marketing = true
purpose_eq Purpose.autopay Purpose.autopay = true
purpose_eq Purpose.document_delivery Purpose.document_delivery = true
purpose_eq _ _ = false

-- The query `records`: the consents of a customer that stand, to approved documents in force.
unfoldable pub in_force : List DocumentVersion → ℕ → ℕ → Date → LegalKind → Purpose → Consent → Bool
in_force versions organization customer today kind purpose c =
    c.customer == customer
    && not (is_some c.withdrawn_at)
    && purpose_eq purpose c.purpose
    && any
        (λ d.
          d.pk == c.document
          && d.organization == organization
          && is_approved_version d.status
          && date_leb d.effective_on today
          && kind_eq kind d.kind)
        versions

unfoldable pub check_documents : Env → ℕ → ℕ → M Gate
check_documents env organization customer = do
  let today = env.local_date env.now
  contract ← gets (λ db.
      any
        (in_force db.compliance.versions organization customer today LegalKind.contract
          Purpose.contract)
        db.compliance.consents)
  privacy ← gets (λ db.
      any
        (in_force db.compliance.versions organization customer today LegalKind.privacy
          Purpose.privacy_notice)
        db.compliance.consents)
  raise_if (not contract || not privacy) no_customer_documents
  pure passed

unfoldable pub require_customer_documents : Env → Subscription → M Gate
require_customer_documents env s = do
  c ← get_customer s.customer
  o ← get_organization c.organization
  if o.demo_mode then pure waived else (do
    plan ← get_plan s.plan
    _ ← require_plan_registration env plan
    check_documents env o.pk c.pk)
