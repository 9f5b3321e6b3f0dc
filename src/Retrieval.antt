-- ===== src/Retrieval.antt =====
-- What reaches a prompt: fusion, check and packing of retrieved sections (retrieval/fusion.py,
-- retrieval/dense.py, retrieval/context_packing.py).
pub mod Packing
pub mod Fusion
mod Fused
mod Ranked
mod Covered
pub mod Expanding
pub mod Totals
pub mod Within
pub mod Budget
pub mod Access
mod Verifying
mod Admitted
mod Readable
mod FusionTests
mod Tests
