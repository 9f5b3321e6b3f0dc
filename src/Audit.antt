-- ===== src/Audit.antt =====
-- agents/contracts.py and agents/auditor.py: the contract of artifacts and the structural audit.
pub mod Artifacts
mod Contract
mod Evidence
mod Verify
mod Cited
mod Citations
mod References
mod Judging
mod Counted
mod Kept
mod Vetted
mod Accepted
mod Grounded
mod Answer
mod Passing
mod Deriving
mod Rendered
mod Grounding
mod Tests
