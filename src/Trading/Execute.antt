-- ===== src/Trading/Execute.antt =====
-- `TradingService.execute_from_signal` (app/services/trading_service.py).
use haru_trade_manager.Common.{
  ℕ, Option, none, some, Act, pure, ◌>>=◌, ◌>>◌, if◌then◌else◌, Double, nought, of_nat, mul, div,
  max_f,
}
use haru_trade_manager.Domain.{Datetime, Signal, OrderRequest, OrderResult}
use haru_trade_manager.Orders.Position.{open_state, or_price}
use haru_trade_manager.Orders.Service.{OrderService, place_with_reconcile}
use haru_trade_manager.Risk.{build_stop_take_profit}
use haru_trade_manager.Runtime.{beside}
use haru_trade_manager.Trading.{
  Database, Desk, SignalRow, OrderRow, Position, time, create_signal, create_order, open_position,
}

-- `signal.signal_time or datetime.now(timezone.utc)`
abbrev pub or_now : Option Datetime → Datetime → Datetime
or_now none now = now
or_now (some t) now = t

module _ {F : Type 0} ⦃d : Double F⦄ where
  -- The rows as the service writes them; their ids are those that the database gives.
  abbrev pub signal_row : Datetime → Signal F → SignalRow F
  signal_row now signal = record {
    id = 0;
    ticker = signal.ticker;
    strategy_id = signal.strategy_id;
    timeframe = signal.timeframe;
    side = signal.side;
    signal_price = or_price signal.price nought;
    signal_time = or_now signal.signal_time now;
    status = "queued";
  }

  abbrev pub entry_order : Signal F → OrderRequest F
  entry_order signal = record {
    ticker = signal.ticker;
    side = signal.side;
    order_type = "limit";
    qty = of_nat 1;
    price = signal.price;
  }

  abbrev pub entry_order_row : ℕ → OrderResult → Signal F → OrderRow F
  entry_order_row signal_id result signal = record {
    id = 0;
    signal_id = some signal_id;
    external_order_id = result.order_id;
    ticker = signal.ticker;
    side = signal.side;
    order_type = "limit";
    price = signal.price;
    quantity = of_nat 1;
    filled_quantity = nought;
    status = if result.is_ok then "filled" else "rejected";
    reason = result.error;
  }

  -- The stop and the target; 0.01 and 1.5 are quotients of whole numbers, which floats round alike.
  unfoldable pub entry_levels : F → F × F
  unfolding build_stop_take_profit
  entry_levels price =
      build_stop_take_profit price (max_f (mul price (div (of_nat 1) (of_nat 100))) (of_nat 1))
        (div (of_nat 3) (of_nat 2)) (of_nat 2)

  abbrev pub position_row : Datetime → ℕ → Signal F → Position F
  position_row now order_id signal = record {
    id = 0;
    order_id = some order_id;
    ticker = signal.ticker;
    strategy_id = signal.strategy_id;
    entry_price = or_price signal.price nought;
    stop_price = (entry_levels (or_price signal.price nought)).0;
    take_profit_price = (entry_levels (or_price signal.price nought)).1;
    quantity = of_nat 1;
    entry_time = now;
    row = record {
      state = open_state;
      highest_price = some (or_price signal.price nought);
      trailing_stop_price = none;
      remaining_quantity = of_nat 1;
      closed_time = none;
      close_reason = none;
    };
  }

module _ {F G : Type 0} ⦃d : Double F⦄ (db : Database G) (service : OrderService F G) where
  -- `if result.ok:`
  unfoldable pub open_if_filled : Signal F → OrderResult → OrderRow F → Act (G × Desk F) (Unit {0})
  unfolding open_position entry_levels
  open_if_filled signal result order =
      if result.is_ok
      then (do now ← time db; open_position db (position_row now order.id signal); pure tt)
      else pure tt

  unfoldable pub execute_from_signal : Signal F → Act (G × Desk F) (Unit {0})
  unfolding create_signal create_order open_if_filled
  execute_from_signal signal = do
    beside db.connect
    now ← time db
    row ← create_signal db (signal_row now signal)
    result ← beside (place_with_reconcile service (entry_order signal))
    order ← create_order db (entry_order_row row.id result signal)
    open_if_filled signal result order
