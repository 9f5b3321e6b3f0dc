-- ===== src/Outbox.antt =====
-- observability/outbox_worker.py: lease-based delivery of invocation telemetry.
pub mod Row
pub mod Claiming
pub mod Delivery
pub mod Lifecycle
pub mod Ownership
pub mod Fencing
mod Unique
pub mod Keeps
pub mod Counts
pub mod Terminal
mod Tests
