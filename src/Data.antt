-- ===== src/Data.antt =====
-- The data layer: aimos/data.
pub mod RateLimit
pub mod Order
pub mod Released
pub mod Priority
pub mod Draining
pub mod Book
pub mod Quality
pub mod Stream
mod Tests
