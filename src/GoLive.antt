-- ===== src/GoLive.antt =====
-- The go-live ladder: aimos/runtime/golive.py, with the file that it is saved in
-- (aimos/runtime/atomic_io.py).
pub mod Gates
pub mod Steps
pub mod Status
pub mod Order
pub mod Storage
pub mod Boot
mod Tests
