-- ===== src/Tests/LoopRuntime.antt =====
-- Two cycles of loops that fail.
use haru_trade_manager.Common.{
  ◌≡◌,
  ℕ,
  false,
  none,
  some,
  [],
  ◌∷◌,
  ok,
  raised,
  other_error,
  length,
  Ensures,
  ℤ_double,
  Int.{ℤ, pos},
}
use haru_trade_manager.LoopRuntime.{Loops, Metrics, no_report, run_cycles}
use haru_trade_manager.LoopRuntime.Health.{IsCounted, run_cycles-IsCounted}

-- The world counts the calls; loop B fails.
abbrev failing : Loops ℤ ℕ
failing = record {
  loop_a = λ g. (ok no_report, g);
  pre_loop_b_hook = none;
  tickers = λ g. (ok ("005930" ∷ []), g);
  loop_b = λ ticker g. (raised (record { kind = other_error; text = "no candles" }), g);
  loop_c = λ g. (ok tt, g);
  critical = some (λ message g. (ok tt, g));
  now = λ g. g;
  monotonic = λ g. pos g;
  maintenance_interval_minutes = 30;
}

abbrev fresh_metrics : Metrics ℤ
fresh_metrics = record {
  cycle_count = 0;
  error_count = 0;
  consecutive_errors = 0;
  last_error = none;
  last_started_at = none;
  last_completed_at = none;
  last_duration_ms = pos 0;
  avg_duration_ms = pos 0;
  max_duration_ms = pos 0;
  last_loop_b_signals = 0;
  last_loop_c_ran = false;
  last_loop_c_slot = none;
  total_duration_ms = pos 0;
}

run_cycles-IsCounted_example :
    Ensures
      (λ reports w'. (length reports ≡ 2) × IsCounted fresh_metrics reports w'.1)
      (run_cycles failing 2 (0, fresh_metrics))
run_cycles-IsCounted_example = run_cycles-IsCounted failing 2 0 fresh_metrics (λ message g. tt)
