-- ===== src/Billing.antt =====
-- billing/services.py: the prepaid ledger.
pub mod Money
pub mod Balances
pub mod Allocate
pub mod Account
pub mod Invariant
pub mod Periods
pub mod Payments
pub mod Credits
pub mod Suspension
pub mod Cash
pub mod Bank
pub mod Tests
