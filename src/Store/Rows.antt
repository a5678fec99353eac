-- ===== src/Store/Rows.antt =====
-- The rows of the tables. A foreign key is the primary key of the row that it names, a nullable
-- column is an `Option`, an amount is in cents, and an instant is in seconds.
use fireisp.Prelude.{ℕ, Bool, Option, List}
use fireisp.Prelude.Text.{Text}
use fireisp.Prelude.Int.{ℤ}
use fireisp.Calendar.{Date}

pub record Organization : Type 0 where
  pub pk : ℕ
  pub demo_mode : Bool

pub record Customer : Type 0 where
  pub pk : ℕ
  pub organization : ℕ
  pub user : Option ℕ

-- `tax_rate` is in thousandths: the column has three decimal places.
pub record Plan : Type 0 where
  pub pk : ℕ
  pub organization : ℕ
  pub name : Text
  pub download_mbps : ℕ
  pub upload_mbps : ℕ
  pub price_mxn : ℕ
  pub tax_rate : ℕ

pub data SubscriptionStatus : Type 0 where
  pending active suspended cancelled : SubscriptionStatus

pub record Subscription : Type 0 where
  pub pk : ℕ
  pub customer : ℕ
  pub plan : ℕ
  pub status : SubscriptionStatus
  pub activated_at : Option ℕ
  pub paid_until : Option ℕ
  pub access_username : Text

pub data InvoiceStatus : Type 0 where
  opened paid void : InvoiceStatus

-- `number` is the pair that `M-{subscription}-{start:%Y%m%d}` prints.
pub record Invoice : Type 0 where
  pub pk : ℕ
  pub customer : ℕ
  pub subscription : Option ℕ
  pub number : ℕ × Date
  pub period_start : Option Date
  pub period_end : Option Date
  pub subtotal : ℕ
  pub tax : ℕ
  pub total : ℕ
  pub status : InvoiceStatus
  pub created_at : ℕ

pub data Method : Type 0 where
  cash transfer card : Method

pub record Payment : Type 0 where
  pub pk : ℕ
  pub customer : ℕ
  pub amount : ℕ
  pub method : Method
  pub reference : Text
  pub paid_at : ℕ
  pub created_at : ℕ
  pub created_by : Option ℕ
  pub idempotency_key : Text

pub record Allocation : Type 0 where
  pub payment : ℕ
  pub invoice : ℕ
  pub amount : ℕ

pub record PaymentReversal : Type 0 where
  pub pk : ℕ
  pub payment : ℕ
  pub reason : Text
  pub created_by : ℕ

pub record CreditMemo : Type 0 where
  pub pk : ℕ
  pub invoice : ℕ
  pub amount : ℕ
  pub reason : Text
  pub source_key : Text
  pub created_by : Option ℕ

pub record Refund : Type 0 where
  pub pk : ℕ
  pub credit_memo : ℕ
  pub amount : ℕ
  pub method : Method
  pub reference : Text
  pub idempotency_key : Text
  pub created_by : ℕ

pub record CashClosure : Type 0 where
  pub pk : ℕ
  pub cashier : ℕ
  pub closed_at : ℕ
  pub expected : ℤ
  pub counted : ℕ
  pub difference : ℤ

-- The constraint `one_cash_entry`: an item names exactly one movement.
pub data Movement : Type 0 where
  payment reversal refund : ℕ → Movement

pub record CashClosureItem : Type 0 where
  pub closure : ℕ
  pub movement : Movement

pub record BankEntry : Type 0 where
  pub pk : ℕ
  pub organization : ℕ
  pub account : Text
  pub external_reference : Text
  pub date : Date
  pub amount : ℕ
  pub fingerprint : Text
  pub payment : Option ℕ

pub record SuspensionPolicy : Type 0 where
  pub organization : ℕ
  pub automatic_enabled : Bool
  pub grace_hours : ℕ

pub record SuspensionProposal : Type 0 where
  pub pk : ℕ
  pub subscription : ℕ
  pub snapshot_paid_until : ℕ
  pub idempotency_key : Text
  pub created_by : Option ℕ

pub record SuspensionDecision : Type 0 where
  pub pk : ℕ
  pub proposal : ℕ
  pub approved : Bool
  pub note : Text
  pub created_by : Option ℕ

-- `block` is the reason that `detail` prints, and `none` where the suspension was applied.
pub data Block : Type 0 where
  not_active within_grace billing_dispute open_outage network_unconfirmed : Block
  automatic_disabled paid_until_changed : Block

pub record SuspensionApplication : Type 0 where
  pub pk : ℕ
  pub proposal : ℕ
  pub applied : Bool
  pub previous_status : SubscriptionStatus
  pub resulting_status : SubscriptionStatus
  pub detail : Option Block
  pub created_by : Option ℕ
  pub created_at : ℕ

pub record SuspensionRelease : Type 0 where
  pub application : ℕ
  pub created_by : Option ℕ

pub data TicketKind : Type 0 where
  technical billing general : TicketKind

pub data TicketStatus : Type 0 where
  unattended in_progress resolved : TicketStatus

pub record Ticket : Type 0 where
  pub pk : ℕ
  pub customer : ℕ
  pub subscription : Option ℕ
  pub kind : TicketKind
  pub status : TicketStatus
  pub subject : Text
  pub description : Text
  pub resolution : Text
  pub resolved_at : Option ℕ

-- `site_organization` is `site.organization`, if there is a site.
pub record Outage : Type 0 where
  pub pk : ℕ
  pub organization : ℕ
  pub site_organization : Option ℕ
  pub started_at : ℕ
  pub ended_at : Option ℕ
  pub provider_attributable : Bool
  pub attribution_evidence : Text
  pub subscriptions : List ℕ

pub record OutageCredit : Type 0 where
  pub pk : ℕ
  pub outage : ℕ
  pub subscription : ℕ
  pub period_start : ℕ
  pub period_end : ℕ
  pub proportional_amount : ℕ
  pub bonus_amount : ℕ
  pub applied_at : Option ℕ
  pub ledger_reference : Text

-- The credential of a subscription, with the code of its router's network node's health check.
pub record RadiusCredential : Type 0 where
  pub subscription : Option ℕ
  pub health_code : Text

pub record HealthCheck : Type 0 where
  pub code : Text
  pub healthy : Bool
  pub checked_at : ℕ

-- `core.Notification`: a message in the portal of a customer.
pub record Notification : Type 0 where
  pub pk : ℕ
  pub customer : ℕ
  pub title : Text
  pub body : Text
  pub read_at : Option ℕ

-- The bodies of `details` are left out.
pub record AuditEvent : Type 0 where
  pub at : ℕ
  pub actor : Option ℕ
  pub action : Text
  pub target : ℕ

-- The topics with their payloads; a notification keeps its title.
pub data Message : Type 0 where
  subscription_changed : ℕ → Message
  notification : ℕ → Text → Message
  subscription_cancelled : ℕ → ℕ → Message

pub record OutboxEvent : Type 0 where
  pub key : Text
  pub message : Message
