-- ===== src/Review.antt =====
-- agents/supervisor.py, `resume_after_human_review`: a human decision on a run under review.
pub mod Decide
pub mod Completion
pub mod Effects
pub mod Taking
pub mod Outcome
pub mod Guarantees
pub mod Protection
mod Tests
