-- ===== src/Broker.antt =====
-- The brokers: aimos/execution/broker, and the reconciliation on start-up of aimos/runtime.
pub mod Mandate
pub mod Live
pub mod Router
pub mod Divergence
pub mod Recon
pub mod Venues
mod Tests
