-- ===== src/Supervisor.antt =====
-- The supervisor's fixed DAG (agents/supervisor.py).
pub mod Agents
pub mod Persist
pub mod Execute
pub mod Stages
pub mod UnderWay
pub mod Tasks
pub mod Audit
pub mod Ending
pub mod Reporting
pub mod Outcome
pub mod Review
pub mod Halting
pub mod Critical
mod Tests
