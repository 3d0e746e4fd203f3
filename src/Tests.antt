-- ===== src/Tests.antt =====
-- Runs at concrete inputs: the theorems applied to samples, and short evaluations of the code.
mod Orders
mod Risk
mod Auth
mod Trading
mod Schedule
mod Strategies
mod Config
mod Telegram
mod Backtest
mod Scheduler
mod LoopB
mod LoopRuntime
mod Preflight
mod RateLimit
mod TimeSync
mod PaperReports
mod Performance
mod Jobs
mod StrategyPerformance
mod Universe
