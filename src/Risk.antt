-- ===== src/Risk.antt =====
-- The risk of the book beside the gates: aimos/risk.
pub mod Counterparty
pub mod Scenario
mod Tests
