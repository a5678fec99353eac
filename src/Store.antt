-- ===== src/Store.antt =====
-- The database that the services share: the rows of core/models.py, billing/models.py,
-- operations/models.py, fiscal/models.py and
-- compliance/models.py that the services read and write, and the transaction monad of
-- `transaction.atomic`.
mod Rows
pub mod Fiscal
pub mod Compliance
pub mod Field
pub mod Network
mod Tables
mod Monad
pub mod Ensures
pub mod Preserves
pub mod Leads
pub mod Returns
pub use Rows.*
pub use Tables.*
pub use Monad.*
