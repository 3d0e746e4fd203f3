-- ===== src/Trading/Cycle.antt =====
-- `LoopARunner.run_once` (app/loops/loop_a_runtime.py): one signal, then every open position.
use haru_trade_manager.Common.{
  Option, none, some, List, [], ◌∷◌, ◌++◌, Act, Bool, true, false, ok, pure, ◌>>=◌, ◌>>◌, catch,
  if◌then◌else◌, Double,
}
use haru_trade_manager.Domain.{Signal}
use haru_trade_manager.Orders.Gateway.{raise_critical}
use haru_trade_manager.Runtime.{beside}
use haru_trade_manager.Trading.{Desk, Position, only_sql}
use haru_trade_manager.Trading.Execute.{execute_from_signal}
use haru_trade_manager.Trading.Monitor.{LoopA, Counts, is_closed, monitor_one}

pub record LoopAResult : Type 0 where
  pub executed_signal : Bool
  pub counts : Counts

abbrev pub no_counts : Counts
no_counts = record { monitored_positions = 0; closed_positions = 0; failed_close_orders = 0 }

module _ {F : Type 0} where
  -- `InMemorySignalQueue`
  unfoldable pub put_many : List (Signal F) → Desk F → Desk F
  put_many signals desk = record desk { queue = desk.queue ++ signals }

  unfoldable pub pop_from : List (Signal F) → Desk F → Option (Signal F) × Desk F
  pop_from [] desk = (none, desk)
  pop_from (signal ∷ rest) desk = (some signal, record desk { queue = rest })

  unfoldable pub pop_one : Desk F → Option (Signal F) × Desk F
  unfolding pop_from
  pop_one desk = pop_from desk.queue desk

  -- `select(Position).where(Position.state != "CLOSED")`
  unfoldable pub open_among : List (Position F) → List (Position F)
  open_among [] = []
  open_among (p ∷ rows) =
      let rest = open_among rows in if is_closed p.row.state then rest else p ∷ rest

module _ {F G : Type 0} ⦃d : Double F⦄ (loop : LoopA F G) where
  unfoldable pub list_open_positions : Act (G × Desk F) (List (Position F))
  unfolding open_among
  list_open_positions = do
    beside loop.db.select
    λ (g, desk). (ok (open_among desk.positions), (g, desk))

  unfoldable pub monitor_all : List (Position F) → Counts → Act (G × Desk F) Counts
  unfolding monitor_one
  monitor_all [] c = pure c
  monitor_all (p ∷ rows) c = monitor_one loop p c >>= monitor_all rows

  -- The rows to monitor; where the query fails there are none.
  unfoldable pub query_positions : Act (G × Desk F) (List (Position F))
  unfolding list_open_positions
  query_positions =
      catch (do beside loop.db.connect; list_open_positions)
        (only_sql
          λ exc. do beside (raise_critical loop.safety "positions_query_failed" exc.text); pure [])

  unfoldable pub monitor_positions_once : Act (G × Desk F) Counts
  unfolding query_positions monitor_all
  monitor_positions_once = query_positions >>= λ rows. monitor_all rows no_counts

  unfoldable pub consume : Option (Signal F) → Act (G × Desk F) Bool
  unfolding execute_from_signal
  consume none = pure false
  consume (some signal) =
      catch (do execute_from_signal loop.db loop.orders signal; pure true)
        λ exc. do beside (raise_critical loop.safety "signal_execute_failed" exc.text); pure false

  unfoldable pub consume_signal_once : Act (G × Desk F) Bool
  unfolding pop_one consume
  consume_signal_once (g, desk) = let (o, desk') = pop_one desk in consume o (g, desk')

  unfoldable pub run_once : Act (G × Desk F) LoopAResult
  unfolding consume_signal_once monitor_positions_once
  run_once = do
    executed ← consume_signal_once
    counts ← monitor_positions_once
    pure (record { executed_signal = executed; counts = counts })
