-- ===== src/Tests/Preflight.antt =====
-- A preflight of a halted runtime, and a rehearsal whose cycles are well.
use haru_trade_manager.Common.{ℕ, true, false, none, some, [], ◌∷◌, ok, ℤ_double, Int.{ℤ, pos}}
use haru_trade_manager.Runtime.{RuntimeState}
use haru_trade_manager.LoopRuntime.{Loops, Metrics, no_report}
use haru_trade_manager.Preflight.{Probed, Probes, run, run_rehearsal}
use haru_trade_manager.Preflight.Verdict.{IsReported, run_rehearsal-IsReported}

abbrev well : Probed
well = record { is_well = true; text = "True" }

abbrev halted : RuntimeState
halted = record {
  entry_paused = true;
  all_paused = true;
  halted = true;
  halt_reason = some "order_failed";
  halted_at = none;
  pending_change = none;
}

abbrev quiet_loops : Loops ℤ ℕ
quiet_loops = record {
  loop_a = λ g. (ok no_report, g);
  pre_loop_b_hook = none;
  tickers = λ g. (ok ("005930" ∷ []), g);
  loop_b = λ ticker g. (ok 1, g);
  loop_c = λ g. (ok tt, g);
  critical = none;
  now = λ g. g;
  monotonic = λ g. pos g;
  maintenance_interval_minutes = 30;
}

abbrev unused : Metrics ℤ
unused = record {
  cycle_count = 0;
  error_count = 0;
  consecutive_errors = 0;
  last_error = none;
  last_started_at = none;
  last_completed_at = none;
  last_duration_ms = pos 0;
  avg_duration_ms = pos 0;
  max_duration_ms = pos 0;
  last_loop_b_signals = 0;
  last_loop_c_ran = false;
  last_loop_c_slot = none;
  total_duration_ms = pos 0;
}

abbrev probes : Probes ℕ
probes = record {
  trading_mode = "live";
  background_running = λ g. (ok well, g);
  connectivity = λ ticker g. (ok well, g);
}

run_rehearsal-IsReported_example :
    IsReported
      (λ s. s)
      quiet_loops
      3
      unused
      (run (λ s. s) quiet_loops probes (record halted { halted = false }) "market" none 0).0
      (run_rehearsal
        (λ s. s)
        quiet_loops
        probes
        (record halted { halted = false })
        "market"
        none
        3
        (0, unused))
run_rehearsal-IsReported_example =
    run_rehearsal-IsReported (λ s. s) quiet_loops probes (record halted { halted = false }) "market"
      none 3 0 unused (λ message g. tt)
