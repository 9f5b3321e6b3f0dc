-- ===== src/Workflow.antt =====
-- The review run's records and its state machine: infrastructure/postgres/models.py and the
-- transitions and event writer of agents/supervisor.py.
pub mod Status
pub mod Records
pub mod Events
pub mod Follows
