-- ===== src/Compliance/Tests.antt =====
-- A database with requests, notices, holds and policies, and the services on it.
mod Constancies
mod Terms
mod Requests
mod Papers
pub mod Samples
