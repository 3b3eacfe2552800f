-- ===== src/Execution.antt =====
-- The execution layer: aimos/execution.
pub mod Risk
pub mod Trade
pub mod Evaluator
pub mod Choice
pub mod Sizer
pub mod Decide
pub mod Plugins
pub mod Samples
mod Tests
