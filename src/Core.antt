-- ===== src/Core.antt =====
-- What all layers share: aimos/core.
pub mod Evidence
pub mod Layout
pub mod Bus
pub mod Delivery
mod Tests
