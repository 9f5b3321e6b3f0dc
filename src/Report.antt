-- ===== src/Report.antt =====
-- agents/report_agent.py: `generate`, `persist` and `diff_reports`.
pub mod Generate
pub mod Differences
mod Tests
