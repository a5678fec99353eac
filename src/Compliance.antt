-- ===== src/Compliance.antt =====
-- compliance/services.py and compliance/workflows.py: what the law asks of the operator, by the
-- terms, gates, constancies and files that the services keep.
pub mod Arco
pub mod BusinessDays
pub mod Gates
pub mod Consents
pub mod Retention
pub mod Cancellation
pub mod Notices
pub mod Disposal
pub mod Tests
