-- ===== src/Learning.antt =====
-- The learning side: aimos/learning.
pub mod Registry
pub mod Matching
pub mod Refines
mod Tests
