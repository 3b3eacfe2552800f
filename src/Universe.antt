-- ===== src/Universe.antt =====
-- The universe of assets: aimos/universe.
pub mod Tiers
pub mod Scan
pub mod Caps
pub mod Moves
pub mod Filters
pub mod Registry
pub mod Depeg
mod Tests
