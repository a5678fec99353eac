-- ===== src/Lib.antt =====
-- The services of fireisp, the management system of an Internet provider: a Django application over
-- PostgreSQL whose services run inside `transaction.atomic` and lock the rows that they change.
--
-- The parts of the program that are modelled, and how they interact
--   * billing/services.py charges customers: `create_period` opens an invoice for the months from one
--     anniversary of the activation to another, `receive_payment` books a payment, and
--     `_allocate_customer` puts the payments to the open invoices, the oldest period first. Paid
--     periods move `paid_until` of the subscription (`_refresh_subscription`), which may lift a
--     suspension for non-payment (`_resume_nonpayment`). Credit memos, refunds, reversals, the cash
--     desk and the bank reconciliation write to the same ledger.
--   * operations/services.py computes the compensation for an outage, and holds a suspension while a
--     billing complaint is open. `apply_outage_credit` turns a compensation into a credit memo.
--   * compliance/services.py and compliance/workflows.py keep the terms, gates and files that the law
--     asks for: consents, requests about personal data, notices, cancellations, holds and disposal.
--   * core/services.py keeps the audit log and the outbox that the services write to.
--   * fiscal/jobs.py keeps a durable queue of fiscal jobs with leases, and fiscal/services.py stamps and
--     cancels documents at the PAC for the workers that claim them; a claim fences every write.
--
-- The files
--   * Prelude: the names of the library that the modules share, integers over the native numbers
--     (Prelude/Int), code points (Prelude/Text), lists (Prelude/Lists) a stable sort
--     (Prelude/Sort), tables with a primary key (Prelude/Keys), and Boolean tests (Prelude/Tests).
--   * Store: the rows of core/models.py, billing/models.py, operations/models.py (Store/Rows) and
--     fiscal/models.py (Store/Fiscal), the tables (Store/Tables), and transactions as state with exceptions (Store/Monad). An exception
--     carries no state, as `transaction.atomic` rolls back. Store/Ensures, Store/Preserves and
--     Store/Returns are the rules to prove postconditions, invariants and results of transactions.
--   * Calendar: `anniversary` of billing/services.py, and the calendar of `datetime.date`.
--   * Core: `audit`, `publish` and the look-ups and locks of rows.
--   * Operations: complaints, outages and the compensation, `calculate_outage_credit` and
--     `record_outage_credit`.
--   * Billing: one module for each group of services. Billing/Money is `money`, Billing/Balances the
--     properties `balance` and `available` of billing/models.py, Billing/Allocate the two loops of
--     `_allocate_customer`, Billing/Account `_refresh_subscription` and `_resume_nonpayment`,
--     Billing/Periods `create_period` and `renew_subscription`, Billing/Payments `receive_payment`
--     and `reverse_payment`, Billing/Credits `issue_credit_memo` and `refund_credit`, Billing/Cash
--     `close_cash`, Billing/Bank the import of statements, Billing/Suspension the workflow of
--     suspensions. Billing/Invariant has the ledger's invariant with its proof for each service.
--   * Fiscal: fiscal/jobs.py and fiscal/services.py. Fiscal/Queue is `queue_job`, Fiscal/Jobs the
--     leases (`claim_job`, `recover_expired_jobs`, the end of `run_job`), Fiscal/Stamp, Fiscal/Cancel
--     and Fiscal/Prepare the services on documents, with a remote call between two transactions.
--     Fiscal/Machine lets the transactions of several workers, of the pages and of the dispatcher
--     come in any order, and Fiscal/Machine/Sound has the invariant of that machine.
--   * Compliance: compliance/services.py and compliance/workflows.py. Compliance/BusinessDays counts the
--     terms, over Calendar/Days (the days of `datetime.date`); Compliance/Gates has the gates of the law,
--     Compliance/Consents the constancies of a customer, Compliance/Arco the requests about personal
--     data with the diagram of their stages, Compliance/Retention and Compliance/Disposal the holds and
--     the disposal of contents, Compliance/Notices the notices of a change, Compliance/Cancellation
--     `cancel_subscription`. Compliance/Disposal/Records states which records a disposal may take and
--     Compliance/Disposal/Effects what it leaves of the tables, Billing/Suspension/Reasons what stands
--     against a suspension, over Prelude/Exists (statements about rows beside the Boolean tests) and
--     Prelude/Updates. Store/Compliance has the rows of Compliance, Store/Leads the rules for
--     transactions that use what they have read, Prelude/Versions tables whose rows come in versions.
--   * Activation: `activate_subscription` of core/services.py behind the gates of Compliance/Gates and of
--     Operations/Installation, and `complete_work_order` and `resolve_ticket` of operations/services.py.
--     Store/Field has the rows of the field work.
--   * Network: network/execution.py. Network has the lease of a node and the quarantine of interrupted
--     jobs, Network/Steps lets entries, checks, recoveries and releases come in any order, Network/Fence
--     is about a lease that another one has followed, Network/Interrupted states
--     which jobs an executor left, Network/Quarantine what becomes of them. Store/Network has the rows.
--
-- Correspondence
--   A function of the source is a function of the model with the same name, an underscore in front
--   left out. The database is a record of tables, a table a list of rows with the newest row first, a
--   foreign key the number of the row that it names, and the reverse of a foreign key a query. A
--   `ValidationError` is an exception with one constructor for its message. What `Decimal` holds with
--   two places is a number of cents; where an amount may be negative it is an integer. An instant is a
--   number of seconds, a day a triple that `datetime.date` would accept. The clock, the time zone and
--   the standard library of Python are no code of the repository: they are fields of `Env`, an
--   argument of each service. The answers of remote systems are arguments.
--
-- Bounds and fuel
--   Numbers are unbounded, as Python's are; `money` checks the bound of the column before an amount is
--   stored. Every loop of the modelled code runs over a list and is structural recursion, but for two.
--   The digits of a number (`show_ℕ`) take fuel, one more than the number, which each digit divides by
--   ten. The loop of `add_business_days` takes more fuel than the calendar has days left.
--
-- What is not modelled
--   Pages, forms and templates; the remote systems (the PAC, the SAT, RouterOS, FreeRADIUS), which the
--   code only calls; reading CSV and UTF-8 (a file arrives as rows); the details of audit events.
--   The queue of network jobs in network/services.py and the scripts of deploy.
--   Transactions run one at a time: the row locks are not modelled, only the order that they enforce.
--   The jobs that cancel, verify or print do not yet take part in the machine of the workers.
pub mod Prelude
pub mod Calendar
pub mod Store
pub mod Core
pub mod Operations
pub mod Billing
pub mod Activation
pub mod Compliance
pub mod Fiscal
pub mod Network
