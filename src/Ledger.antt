-- ===== src/Ledger.antt =====
-- The ledger of invocations (observability/writer.py).
mod Tables
pub mod Writer
mod Recorded
mod Found
mod Again
mod Sound
mod Tests
