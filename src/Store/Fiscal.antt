-- ===== src/Store/Fiscal.antt =====
-- The rows of fiscal/models.py. The free texts that inform a person (`error`, `message`) and the
-- columns that only the signer reads are left out.
use fireisp.Prelude.{ℕ, Bool, Option, List}
use fireisp.Prelude.Text.{Text}

pub data DocumentKind : Type 0 where
  income complement credit global : DocumentKind

-- `rejected` is the status `error`.
pub data DocumentStatus : Type 0 where
  draft submitting stamped rejected uncertain cancel_pending cancelled : DocumentStatus

-- `organization` is what `document_organization` follows the invoice or the batch to.
pub record FiscalDocument : Type 0 where
  pub pk : ℕ
  pub kind : DocumentKind
  pub organization : ℕ
  pub invoice : Option ℕ
  pub global_batch : Option ℕ
  pub allocation : Option ℕ
  pub credit_memo : Option ℕ
  pub uuid : Text
  pub status : DocumentStatus
  pub payment_method : Text
  pub payment_form : Text
  pub request_xml : Text
  pub xml : Text
  pub pdf_content : Text
  pub pdf_source_sha256 : Text
  pub cancellation_xml : Text
  pub cancellation_reason : Text
  pub cancellation_replacement : Text
  pub cancellation_code : Text

-- `environment != 'demo'`, `organization.demo_mode` and the presence of the credentials.
pub record FiscalProfile : Type 0 where
  pub pk : ℕ
  pub organization : ℕ
  pub is_demo : Bool
  pub demo_mode : Bool
  pub has_credentials : Bool

pub data Operation : Type 0 where
  stamp recover cancel cancellation_status verify pdf : Operation

pub data JobStatus : Type 0 where
  queued running succeeded failed review : JobStatus

-- The check constraint `fiscal_job_target`: a document or a profile.
pub data Target : Type 0 where
  on_document on_profile : ℕ → Target

-- The stored payload: `{}`, or the reason and the replacement of a cancellation.
abbrev pub Payload : Type 0
Payload = Option (Text × Text)

-- `request_key` is `none` where the code drew a random key.
pub record FiscalJob : Type 0 where
  pub pk : ℕ
  pub request_key : Option Text
  pub target : Target
  pub actor : Option ℕ
  pub operation : Operation
  pub payload : Payload
  pub status : JobStatus
  pub attempts : ℕ
  pub claim_token : Option ℕ
  pub available_at : ℕ
  pub lease_until : Option ℕ
  pub created_at : ℕ
  pub finished_at : Option ℕ

pub record FiscalAttempt : Type 0 where
  pub document : ℕ
  pub outcome : DocumentStatus

-- An invoice reserved in a global document.
pub record GlobalItem : Type 0 where
  pub batch : ℕ
  pub invoice : ℕ

pub record Fiscal : Type 0 where
  pub profiles : List FiscalProfile
  pub documents : List FiscalDocument
  pub jobs : List FiscalJob
  pub fiscal_attempts : List FiscalAttempt
  pub global_items : List GlobalItem
