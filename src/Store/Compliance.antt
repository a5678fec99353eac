-- ===== src/Store/Compliance.antt =====
-- The rows of compliance/models.py. A copy of a plan that a registration keeps is a record.
use fireisp.Prelude.{ℕ, Bool, Option, List}
use fireisp.Prelude.Text.{Text}
use fireisp.Calendar.{Date}

pub data ReviewStatus : Type 0 where
  unreviewed in_progress approved : ReviewStatus

pub record LegalRequirement : Type 0 where
  pub organization : ℕ
  pub code : Text
  pub title : Text
  pub applicable : Bool
  pub production_required : Bool
  pub status : ReviewStatus
  pub evidence : Text
  pub reviewed_by : Option ℕ
  pub reviewed_at : Option ℕ
  pub expires_on : Option Date

pub data LegalKind : Type 0 where
  contract privacy rights network : LegalKind

pub data VersionStatus : Type 0 where
  draft approved : VersionStatus

pub record DocumentVersion : Type 0 where
  pub pk : ℕ
  pub organization : ℕ
  pub kind : LegalKind
  pub version : Text
  pub content : Text
  pub effective_on : Date
  pub status : VersionStatus

pub data Purpose : Type 0 where
  contract privacy_notice marketing autopay document_delivery : Purpose

pub record Consent : Type 0 where
  pub pk : ℕ
  pub customer : ℕ
  pub document : ℕ
  pub purpose : Purpose
  pub channel : Text
  pub evidence : Text
  pub content_snapshot : Text
  pub content_hash : Text
  pub accepted_at : ℕ
  pub withdrawn_at : Option ℕ
  pub recorded_by : Option ℕ

pub record BusinessHoliday : Type 0 where
  pub organization : ℕ
  pub date : Date
  pub is_working_day : Bool

pub data RequestType : Type 0 where
  access rectification cancellation opposition : RequestType

pub data ArcoStatus : Type 0 where
  pending_identity in_review decision_sent completed : ArcoStatus

pub record ArcoRequest : Type 0 where
  pub pk : ℕ
  pub customer : ℕ
  pub request_type : RequestType
  pub description : Text
  pub received_on : Date
  pub identity_verified_at : Option ℕ
  pub identity_evidence : Text
  pub status : ArcoStatus
  pub response_due_on : Option Date
  pub decision : Text
  pub decision_sent_on : Option Date
  pub granted : Option Bool
  pub implementation_due_on : Option Date
  pub completed_on : Option Date
  pub implementation_evidence : Text

pub data Stage : Type 0 where
  response implementation : Stage

pub record ArcoExtension : Type 0 where
  pub pk : ℕ
  pub request : ℕ
  pub stage : Stage
  pub reason : Text
  pub notified_on : Date
  pub notification_evidence : Text
  pub previous_due_on : Date
  pub extended_due_on : Date
  pub recorded_by : Option ℕ

pub record RetentionPolicy : Type 0 where
  pub organization : ℕ
  pub category : Text
  pub lawful_basis : Text
  pub retention_days : ℕ
  pub disposal_method : Text
  pub approved : Bool
  pub reviewed_on : Option Date

pub record RetentionHold : Type 0 where
  pub pk : ℕ
  pub customer : ℕ
  pub category : Text
  pub released_at : Option ℕ
  pub release_reason : Text

pub record CancellationRequest : Type 0 where
  pub pk : ℕ
  pub subscription : ℕ
  pub channel : Text
  pub reason : Text
  pub recorded_by : Option ℕ

pub data NoticeKind : Type 0 where
  contract_change automatic_renewal : NoticeKind

-- `renewal_amount_mxn` is in cents.
pub record RegulatoryNotice : Type 0 where
  pub pk : ℕ
  pub subscription : ℕ
  pub kind : NoticeKind
  pub effective_on : Date
  pub title : Text
  pub body : Text
  pub requires_consent : Bool
  pub renewal_amount_mxn : Option ℕ
  pub renewal_frequency : Text
  pub document : Option ℕ
  pub notification : Option ℕ
  pub published_at : Option ℕ
  pub delivery_channel : Text
  pub delivered_on : Option Date
  pub delivery_evidence : Text
  pub accepted_at : Option ℕ
  pub acceptance_evidence : Text

pub data Category : Type 0 where
  support_ticket_content arco_request_content : Category

-- When a file was closed: a ticket at an instant, a request on a day.
pub data Closing : Type 0 where
  at_instant : ℕ → Closing
  on_day : Date → Closing

-- What `_digest` takes of a record: its key, its end, its texts, and its extensions.
pub record Content : Type 0 where
  pub pk : ℕ
  pub closed : Closing
  pub texts : List Text
  pub extensions : List (ℕ × Text × Text)

pub record RetentionDisposal : Type 0 where
  pub pk : ℕ
  pub customer : ℕ
  pub category : Category
  pub record_ids : List ℕ
  pub snapshot_hash : Text
  pub expires_at : ℕ
  pub created_by : Option ℕ
  pub performed_at : Option ℕ
  pub performed_by : Option ℕ
  pub external_copies_evidence : Text

-- `PlanRegistration.snapshot`; a registration that was not reviewed has an empty one.
pub record PlanSnapshot : Type 0 where
  pub organization : ℕ
  pub name : Text
  pub download_mbps : ℕ
  pub upload_mbps : ℕ
  pub price_mxn : ℕ
  pub tax_rate : ℕ

pub record PlanRegistration : Type 0 where
  pub plan : ℕ
  pub tariff_reference : Text
  pub registered_on : Date
  pub effective_on : Date
  pub expires_on : Option Date
  pub evidence : Text
  pub approved : Bool
  pub reviewed_by : Option ℕ
  pub reviewed_at : Option ℕ
  pub plan_snapshot : Option PlanSnapshot

pub record Compliance : Type 0 where
  pub requirements : List LegalRequirement
  pub versions : List DocumentVersion
  pub consents : List Consent
  pub holidays : List BusinessHoliday
  pub arco_requests : List ArcoRequest
  pub extensions : List ArcoExtension
  pub retention_policies : List RetentionPolicy
  pub holds : List RetentionHold
  pub cancellations : List CancellationRequest
  pub notices : List RegulatoryNotice
  pub disposals : List RetentionDisposal
  pub registrations : List PlanRegistration
