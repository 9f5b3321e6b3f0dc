-- ===== src/Cases.antt =====
-- The material of credit cases: its tables, the server's request context, and frozen snapshots.
pub mod Tables
pub mod Validity
mod Snapshot
pub mod Frozen
mod Active
pub mod Eligible
pub mod Trusted
mod Authorised
pub mod Tests
