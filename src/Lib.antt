-- ===== src/Lib.antt =====
-- haru-trade-manager places stock orders from signals, watches the positions that come of them, and
-- shows the operator what it does. Loop B scans candles and queues signals; loop A takes one signal
-- at a time, places its order and moves each open position through its states; a safety manager
-- halts the runtime and raises an alarm on a critical failure; the operator logs in with one-time
-- codes. This library models the parts that decide.
--
-- Common: what every part uses. Common.Effects is Python code that calls out: `Act W A` passes a
--   state of the world on and gives a value or raises, and what was done before an exception stays
--   done. Common.Dicts is a dict keyed by texts. Common.Floats is `float`: an interface, the facts
--   about IEEE doubles that theorems rest on (`IsOrdered`), with whole numbers as a model of them.
--   NaN is a value of the interface: theorems that exclude it say so by `IsNumber`.
-- Domain: app/domain/models.py.
-- Orders.Gateway, Orders.Service: app/orders/service.py. `place_with_reconcile` is the method, over
--   any gateway and any safety hook; `attempt`, `settle` and `check_status` are its parts, which
--   occur twice in the source. Orders.Service.Monitor is an automaton over the calls: what is
--   known of the order sent last, where a placement that raises or gives no id leaves an order that may
--   stand, how many were sent, and how many over such a lost one. Attempts, Reconcile and Alarm are
--   proofs over it.
-- Orders.Paper: app/orders/paper_gateway.py.
-- Orders.Position: app/orders/state_machine.py, `decide` and `apply`.
-- Risk: app/risk/engine.py. The sort by priority is an insertion sort that keeps the order of rows
--   of equal rank, as Python's `sorted` does.
-- Runtime: app/services/runtime_state.py and app/services/runtime_safety.py. Runtime.Wired is the
--   manager behind the order service, as app/services/runtime_factory.py puts it.
-- Auth: app/services/auth.py. The time of each call, the code and the session id are arguments. The
--   objects that the code changes in place are values that are written back under their key.
-- Trading: loop A. Trading itself holds the tables of app/db/models/ordering.py and the operations of
--   app/repositories/ordering.py; `Database` is the session, whose commit may raise, and what was
--   committed stays. Trading.Execute is app/services/trading_service.py, Trading.Monitor and
--   Trading.Cycle are app/loops/loop_a_runtime.py with the queue of app/loops/core.py. Trading.Keeps
--   has the rules for what a run keeps whether or not it raises; Rows, Steady and Steps apply them to
--   the operations; Backed, Queue and Counts are the theorems.
-- Strategies: app/strategies. The five classes are records with a rule; Strategies.Registry has them,
--   `generate` and the scan of app/strategies/registry.py.
-- LoopB: `LoopBRunner` of app/loops/loop_b_runtime.py, and in LoopB.Candles the queries and the write of
--   app/repositories/candle.py that it makes; LoopB.Batch has `upsert_batch` of the same repository with
--   its theorem. LoopB.Once is the theorem on the slots.
-- Schedule: `MarketSchedule` of app/loops/loop_b_runtime.py.
-- TimeSync: app/core/time_sync.py, the sync of the server's clock before the market opens.
-- Config: app/core/config.py, the rules of the settings and `set` with its checks; how Python reads
--   a number from a text is an argument. Config.Manager also has `load_into_manager`, and Config.Store
--   `ConfigRepository.set` of app/repositories/config.py under `ConfigService.set` of
--   app/services/config_service.py. Checks, Sound, Writes and Kept are
--   theorems.
-- Telegram: app/services/telegram_command_service.py, over any service that writes settings;
--   Telegram.Guarded is the theorem on what the commands reach.
-- Backtest: app/backtest/core.py and, of app/services/backtest_jobs.py, the simulation of one trade;
--   the two loops over the bars share `run_bars`. Backtest.Drawdown is `_max_drawdown`,
--   Backtest.Lookahead the theorem that later bars do not count. Backtest.Scheduler is
--   app/services/backtest_scheduler.py, and Backtest.Scheduler.Daily has its theorems. Backtest.Jobs is
--   the table of jobs, Backtest.Jobs.Run `_run_job`, which waits between its steps: what other tasks do
--   to the table then is a function of `Outside`. Tally is its result; Counts, Held, Finished and
--   Started are theorems.
-- LoopRuntime: app/services/loop_runtime.py. The loops are arguments that may raise;
--   LoopRuntime.Health compares the metrics with the reports of the cycles.
-- Preflight: app/services/live_preflight.py over the cycles of LoopRuntime; Preflight.Verdict has its
--   theorems.
-- RateLimit: app/core/rate_limited_client.py; the priority queue is a list in order. RateLimit.Fair
--   compares it with two queues.
-- Paper: app/repositories/paper.py; `Connection` is what of the database may raise, and Paper.Steady has
--   the rules for one that does not.
-- Performance: app/services/performance.py over app/repositories/performance.py. Performance.Curve has
--   `twr_report` and `equity_curve`, Performance.Detect `detect_cash_flows`; Flows, Returns and Settled
--   are theorems.
-- StrategyPerformance: app/services/strategy_performance.py, of the trades that the repository lists;
--   StrategyPerformance.Page is its theorem.
-- DailyReport: app/services/daily_report.py. What other tasks do to the marks while a message is sent is an
--   argument; DailyReport.Once has the marks that a report leaves.
-- PaperReports: app/services/paper_report.py; PaperReports.Verdict is its theorem.
-- Universe: app/repositories/universe.py. Universe.Sources, Universe.Seeds and Universe.Liquidity are
--   app/services/universe_bootstrap.py: the labels of the sources, the first start and the recount of the
--   active symbols, which the sessions of app/main.py commit. NewRows, Rows and Chosen are theorems.
-- Tests: runs at concrete inputs.
--
-- Numbers are the native ℕ: counts, microseconds since a fixed origin, ids. Where the code
-- subtracts, the difference is not negative, or the code itself cuts it off at 0, or it is an
-- integer of Common.Int. Every loop is structural recursion, over the list it reads or the number
-- of its rounds; `show` alone runs on fuel, which is above the number that each round divides by
-- ten.
--
-- Not modelled: the database, HTTP and Telegram's servers, whose answers are arguments or calls
-- that may raise; the pages of health and of the history of settings, which only read; the
-- requests to the exchange's server and to the broker, and the first fetch of candles, which
-- consist of them; the routes and pages of the API.
-- The messages that the login service sends to its alert sink are not part of its state.
pub mod Common
pub mod Domain
pub mod Orders
pub mod Risk
pub mod Runtime
pub mod Auth
pub mod Trading
pub mod Schedule
pub mod Strategies
pub mod TimeSync
pub mod Config
pub mod Telegram
pub mod Backtest
pub mod LoopB
pub mod LoopRuntime
pub mod Preflight
pub mod RateLimit
pub mod Paper
pub mod DailyReport
pub mod PaperReports
pub mod Performance
pub mod StrategyPerformance
pub mod Universe
pub mod Tests
