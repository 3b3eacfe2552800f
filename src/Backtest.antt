-- ===== src/Backtest.antt =====
-- The backtest: aimos/backtest.
pub mod Costs
