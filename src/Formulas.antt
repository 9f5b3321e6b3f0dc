-- ===== src/Formulas.antt =====
-- formulas/engine.py: metrics over decimal inputs, and their replay.
pub mod Decimal
pub mod Engine
pub mod Evaluation
pub mod Replay
mod Agreeing
mod Status
pub mod Tests
