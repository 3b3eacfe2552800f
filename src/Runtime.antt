-- ===== src/Runtime.antt =====
-- The running system: aimos/runtime.
pub mod Features
pub mod Pipeline
pub mod Halt
pub mod Watchdog
pub mod Liveness
pub mod Decided
pub mod Store
mod Tests
