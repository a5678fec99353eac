-- ===== src/Store/Tables.antt =====
-- The state: one list of rows for each table, the newest row first.
use fireisp.Prelude.{ℕ, List}
use fireisp.Store.Rows.{
  Organization, Customer, Notification, Plan, Subscription, Invoice, Payment, Allocation,
  PaymentReversal, CreditMemo, Refund, CashClosure, CashClosureItem, BankEntry, SuspensionPolicy,
  SuspensionProposal, SuspensionDecision, SuspensionApplication, SuspensionRelease, Ticket, Outage,
  OutageCredit, RadiusCredential, HealthCheck, AuditEvent, OutboxEvent,
}
use fireisp.Store.Fiscal.{Fiscal}
use fireisp.Store.Compliance.{Compliance}
use fireisp.Store.Field.{Field}
use fireisp.Store.Network.{Network}

-- The tables of the customer accounts that carry amounts.
pub record Ledger : Type 0 where
  pub invoices : List Invoice
  pub payments : List Payment
  pub allocations : List Allocation
  pub reversals : List PaymentReversal
  pub memos : List CreditMemo
  pub refunds : List Refund

pub record Accounts : Type 0 where
  pub organizations : List Organization
  pub users : List ℕ
  pub customers : List Customer
  pub plans : List Plan
  pub subscriptions : List Subscription
  pub notifications : List Notification

pub record CashDesk : Type 0 where
  pub closures : List CashClosure
  pub items : List CashClosureItem

pub record Suspensions : Type 0 where
  pub policies : List SuspensionPolicy
  pub proposals : List SuspensionProposal
  pub decisions : List SuspensionDecision
  pub applications : List SuspensionApplication
  pub releases : List SuspensionRelease

pub record Operations : Type 0 where
  pub tickets : List Ticket
  pub outages : List Outage
  pub credits : List OutageCredit
  pub credentials : List RadiusCredential
  pub checks : List HealthCheck

pub record Journal : Type 0 where
  pub audits : List AuditEvent
  pub outbox : List OutboxEvent

-- `next_pk` stands for the sequences that number new rows.
pub record Db : Type 0 where
  pub next_pk : ℕ
  pub accounts : Accounts
  pub ledger : Ledger
  pub desk : CashDesk
  pub bank : List BankEntry
  pub suspensions : Suspensions
  pub operations : Operations
  pub journal : Journal
  pub fiscal : Fiscal
  pub compliance : Compliance
  pub field : Field
  pub network : Network
