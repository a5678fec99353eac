-- ===== src/Billing/Tests.antt =====
-- Runs of billing/services.py on a small database, and its theorems at these runs.
pub mod Samples
mod Ledger
mod Calls
mod Amounts
