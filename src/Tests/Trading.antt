-- ===== src/Tests/Trading.antt =====
-- Samples of loop A: the paper gateway and a database that counts its rows, over whole numbers.
use haru_trade_manager.Common.{
  ℕ,
  ◌+◌,
  ◌≤◌,
  ◌≡◌,
  refl,
  none,
  some,
  [],
  ◌∷◌,
  ok,
  pure,
  length,
  After,
  Int.{ℤ, pos, ◌-ℤ◌, ◌*ℤ◌, quot_ℤ},
  ℤ_double,
}
use haru_trade_manager.Domain.{Signal}
use haru_trade_manager.Orders.Paper.{paper_gateway}
use haru_trade_manager.Orders.Position.{open_state, decide, snapshot, apply}
use haru_trade_manager.Orders.Service.{place_with_reconcile}
use haru_trade_manager.Trading.{Database, Desk, Position}
use haru_trade_manager.Trading.Monitor.{LoopA}
use haru_trade_manager.Trading.Cycle.{open_among, run_once}
use haru_trade_manager.Trading.Backed.{IsBacked, run_once-IsBacked}
use haru_trade_manager.Trading.Queue.{run_once-queue}

abbrev working : Database ℕ
working = record {
  connect = pure tt;
  select = pure tt;
  commit = λ n. (ok tt, n + 1);
  refresh = pure tt;
  new_id = λ n. n;
  now = λ n. n;
}

-- The price is 90 and the ATR 2.
abbrev paper_loop : LoopA ℤ ℕ
paper_loop = record {
  db = working;
  orders = record { gateway = paper_gateway; safety = none };
  feeds = record { get_current_price = λ t. pure (pos 90); get_atr = λ t s. pure (pos 2) };
  safety = none;
  config = none;
  default_trail_atr_mult = pos 1;
}

abbrev buy_signal : Signal ℤ
buy_signal = record {
  index = 59;
  side = "buy";
  ticker = "005930";
  strategy_id = "2";
  timeframe = "15m";
  price = some (pos 100);
  signal_time = none;
}

abbrev held : Position ℤ
held = record {
  id = 3;
  order_id = some 2;
  ticker = "000660";
  strategy_id = "1";
  entry_price = pos 95;
  stop_price = pos 91;
  take_profit_price = pos 99;
  quantity = pos 1;
  entry_time = 0;
  row = record {
    state = open_state;
    highest_price = some (pos 95);
    trailing_stop_price = none;
    remaining_quantity = pos 1;
    closed_time = none;
    close_reason = none;
  };
}

abbrev desk : Desk ℤ
desk = record {
  queue = buy_signal ∷ [];
  signals =
      record {
        id = 1;
        ticker = "000660";
        strategy_id = "1";
        timeframe = "3m";
        side = "buy";
        signal_price = pos 95;
        signal_time = 0;
        status = "queued";
      }
      ∷ [];
  orders =
      record {
        id = 2;
        signal_id = some 1;
        external_order_id = some "PAPER-1";
        ticker = "000660";
        side = "buy";
        order_type = "limit";
        price = some (pos 95);
        quantity = pos 1;
        filled_quantity = pos 0;
        status = "filled";
        reason = none;
      }
      ∷ [];
  positions = held ∷ [];
}

desk-IsBacked : IsBacked desk
desk-IsBacked = ((2, refl, (_, (0, refl), refl, refl, _, (0, refl), refl)), tt)

run_once-IsBacked_example : IsBacked (run_once paper_loop (10, desk)).1.1
run_once-IsBacked_example = run_once-IsBacked paper_loop 10 desk desk-IsBacked

-- The signal opens a position at 100, and both positions are under their stops at 90.
run_once_closes : length (open_among (run_once paper_loop (10, desk)).1.1.positions) ≡ 0
unfolding run_once open_among place_with_reconcile paper_gateway decide snapshot ◌-ℤ◌ ◌*ℤ◌ quot_ℤ
    apply
run_once_closes = refl

run_once-queue_example : (run_once paper_loop (10, desk)).1.1.queue ≡ []
run_once-queue_example = run_once-queue paper_loop [] 10 desk buy_signal refl
