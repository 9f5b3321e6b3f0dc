-- ===== src/Tools.antt =====
-- tools/gateway.py: the permission, budget and audit of tool calls.
pub mod Gateway
pub mod Budget
mod Logged
pub mod Invoke
pub mod Audit
mod Tests
