-- ===== src/Tests/Backtest.antt =====
-- A trade that is stopped out, and a drawdown, over whole numbers.
use text.Mathlib.Text.{◌==◌ as str_eq}
use haru_trade_manager.Common.{
  ◌≡◌,
  refl,
  ap,
  none,
  List,
  [],
  ◌∷◌,
  ◌++◌,
  ok,
  ℤ_double,
  ℤ-IsOrdered,
  nought,
  of_nat,
  Int.{ℤ, pos, negsuc, ◌+ℤ◌, ◌-ℤ◌, ◌*ℤ◌, quot_ℤ, abs_ℤ},
}
use haru_trade_manager.Domain.{Candle, Signal}
use haru_trade_manager.Risk
use haru_trade_manager.Backtest.{
  Multiples, simulate_trade, simulate_long_trade, simulate_short_trade, entry_price_n_plus_one_open,
  compute_atr, run_bars, long_bar, short_bar, close_rest, opened, close_all,
}
use haru_trade_manager.Backtest.Lookahead.{simulate_trade-no_lookahead}
use haru_trade_manager.Backtest.Drawdown.{IsGreatest, drops, max_drawdown, max_drawdown-IsGreatest}

abbrev bar : ℤ → ℤ → ℤ → ℤ → Candle ℤ
bar o h l c = record { open_price = o; high = h; low = l; close = c; ts = 0; volume = pos 1 }

abbrev bars : List (Candle ℤ)
bars =
    bar (pos 100) (pos 110) (pos 90) (pos 100)
    ∷ bar (pos 100) (pos 105) (pos 95) (pos 100)
    ∷ bar (pos 98) (pos 99) (pos 70) (pos 75)
    ∷ []

abbrev multiples : Multiples ℤ
multiples = record {
  atr_period = 14;
  stop_atr_mult = pos 1;
  tp_atr_mult = pos 2;
  trail_atr_mult = pos 1;
}

abbrev buy : Signal ℤ
buy = record {
  index = 0;
  side = "buy";
  ticker = "AUTO";
  strategy_id = "1";
  timeframe = "5m";
  price = none;
  signal_time = none;
}

stopped : simulate_trade (pos 0) multiples bars buy ≡ ok (negsuc 19, pos 0, "stop_loss")
unfolding simulate_trade simulate_long_trade simulate_short_trade entry_price_n_plus_one_open
    compute_atr run_bars long_bar short_bar close_rest opened close_all Risk.compute_atr
    Risk.true_ranges Risk.true_range ◌+ℤ◌ ◌-ℤ◌ ◌*ℤ◌ quot_ℤ abs_ℤ
stopped = refl

simulate_trade-no_lookahead_example :
    simulate_trade (pos 0) multiples (bars ++ bar (pos 75) (pos 300) (pos 75) (pos 300) ∷ []) buy
    ≡ ok (negsuc 19, pos 0, "stop_loss")
simulate_trade-no_lookahead_example =
    simulate_trade-no_lookahead (pos 0) multiples bars
      (bar (pos 75) (pos 300) (pos 75) (pos 300) ∷ []) buy (negsuc 19, pos 0, "stop_loss") stopped
      (λ h. cc (ap (λ s. str_eq s "end_of_data") h))

max_drawdown-IsGreatest_example :
    IsGreatest
      (max_drawdown (negsuc 0 ∷ pos 1 ∷ []))
      nought
      (drops (of_nat 1) (of_nat 1) (negsuc 0 ∷ pos 1 ∷ []))
unfolding drops ◌+ℤ◌ ◌-ℤ◌ ◌*ℤ◌ quot_ℤ
max_drawdown-IsGreatest_example =
    max_drawdown-IsGreatest ℤ-IsOrdered (negsuc 0 ∷ pos 1 ∷ []) (refl, (refl, tt))
