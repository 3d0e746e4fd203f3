-- ===== src/Tests/Strategies.antt =====
-- A scan at half past eight, over whole numbers.
use haru_trade_manager.Common.{
  ◌≡◌,
  refl,
  some,
  [],
  ◌∷◌,
  ok,
  Int.{ℤ, pos, ◌-ℤ◌, quot_ℤ, abs_ℤ},
  ℤ_double,
}
use haru_trade_manager.Domain.{Candle}
use haru_trade_manager.Strategies.{at_time, is_active_time, last_two, gap_side}
use haru_trade_manager.Strategies.Registry.{Scan, default_strategies, scan_all}
use haru_trade_manager.Strategies.Emitted.{Emits, scan_all-Emits}

abbrev candle : ℤ → ℤ → Candle ℤ
candle opening close = record {
  open_price = opening;
  high = close;
  low = opening;
  close = close;
  ts = 0;
  volume = pos 10;
}

abbrev morning : Scan ℤ
morning = record {
  ticker = "005930";
  now = 0;
  clock = at_time 8 30;
  candles = candle (pos 40) (pos 50) ∷ candle (pos 110) (pos 120) ∷ [];
}

scan_all-Emits_example :
    Emits "3m" morning default_strategies (scan_all default_strategies "3m" morning)
scan_all-Emits_example = scan_all-Emits "3m" morning default_strategies

morning_signals :
    scan_all default_strategies "3m" morning
    ≡ ok (
        record {
          index = 1;
          side = "buy";
          ticker = "005930";
          strategy_id = "1";
          timeframe = "3m";
          price = some (pos 120);
          signal_time = some 0;
        }
        ∷ [])
unfolding scan_all default_strategies is_active_time last_two gap_side abs_ℤ quot_ℤ ◌-ℤ◌
morning_signals = refl
