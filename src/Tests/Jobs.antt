-- ===== src/Tests/Jobs.antt =====
-- A job of two signals, of which the second has no bar after its own.
use haru_trade_manager.Common.{
  ◌≡◌,
  refl,
  arith,
  ℕ,
  false,
  none,
  some,
  inl,
  [],
  ◌∷◌,
  ok,
  lookup,
  After,
  ℤ_double,
  Int.{ℤ, pos},
}
use haru_trade_manager.Domain.{Candle, Signal}
use haru_trade_manager.Backtest.Jobs.{Jobs, Meta, queued, start_job}
use haru_trade_manager.Backtest.Jobs.Run.{Outside, run_job}
use haru_trade_manager.Backtest.Jobs.Held.{Finished}
use haru_trade_manager.Backtest.Jobs.Finished.{run_job-IsFinished}
use haru_trade_manager.Backtest.Jobs.Started.{start_job-found}

abbrev bar : ℤ → Candle ℤ
bar price = record {
  open_price = price;
  high = price;
  low = price;
  close = price;
  ts = 0;
  volume = pos 1;
}

abbrev signal_at : ℕ → Signal ℤ
signal_at index = record {
  index = index;
  side = "buy";
  ticker = "005930";
  strategy_id = "s";
  timeframe = "1d";
  price = none;
  signal_time = none;
}

abbrev plain : Meta ℤ
plain = record {
  multiples = ok (record {
    atr_period = 14;
    stop_atr_mult = pos 1;
    tp_atr_mult = pos 2;
    trail_atr_mult = pos 1;
  });
  source = "api";
}

-- The clock is the world; no other task changes anything.
abbrev alone : Outside ℤ ℕ
alone = record {
  now = λ n. n;
  others = λ w. w;
  alert_sink = none;
  square = λ x. ok x;
  sqrt = λ x. ok x;
  truncate = λ x. 0;
  lower = λ s. s;
  head = λ s. s;
  show_rate = λ x. "";
}

abbrev one_job : Jobs ℤ
one_job = ("a1", queued "a1" 5 plain) ∷ []

run_job-IsFinished_example :
    After
      (λ _. Finished alone "a1" false 2)
      (λ _. Finished alone "a1" false 2)
      (run_job alone "a1"
        (pos 0)
        (bar (pos 100) ∷ bar (pos 110) ∷ [])
        (signal_at 0 ∷ signal_at 1 ∷ [])
        (7, one_job))
unfolding lookup
run_job-IsFinished_example =
    run_job-IsFinished alone "a1" false 2 (pos 0) (bar (pos 100) ∷ bar (pos 110) ∷ [])
      (signal_at 0 ∷ signal_at 1 ∷ []) (7, one_job) (λ w. inl refl) refl tt

start_job-found_example :
    lookup "b2" (start_job 1 "b2" 6 plain one_job) ≡ some (queued "b2" 6 plain)
unfolding lookup
start_job-found_example =
    start_job-found "b2" 1 6 plain one_job refl (omega arith, tt) (omega arith)
