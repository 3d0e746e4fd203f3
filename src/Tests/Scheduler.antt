-- ===== src/Tests/Scheduler.antt =====
-- Three checks on one day, over bars that all rise.
use haru_trade_manager.Common.{
  ◌≡◌,
  refl,
  ℕ,
  suc,
  ◌≤◌,
  true,
  none,
  List,
  [],
  ◌∷◌,
  ok,
  if◌then◌else◌,
  ℤ_double,
  Int.{ℤ, pos, quot_ℤ},
}
use haru_trade_manager.Domain.{Candle}
use haru_trade_manager.Backtest.Scheduler.{
  Look, Scheduler, Provider, ran_on, build_signals, jobs_started, trigger_if_due, trigger_now,
}
use haru_trade_manager.Backtest.Scheduler.Daily.{jobs_started-daily}

abbrev rising : Candle ℤ
rising = record {
  open_price = pos 1;
  high = pos 3;
  low = pos 1;
  close = pos 2;
  ts = 0;
  volume = pos 1;
}

abbrev three_bars : List (Candle ℤ)
three_bars = rising ∷ rising ∷ rising ∷ []

abbrev provider : Provider ℤ ℕ
provider = record {
  candles = λ g. (ok three_bars, g);
  slippage_pct = λ g. (ok (pos 0), g);
  start_job = λ candles signals pct g. (ok "job", suc g);
}

abbrev enabled : Scheduler
enabled = record {
  enabled = true;
  run_hour = 16;
  max_signals = 80;
  last_run_date = none;
  last_job_id = none;
  last_status = none;
  last_reason = none;
  last_checked_at = none;
}

abbrev at_hour : ℕ → Look
at_hour hour = record { day = 9; hour = hour; time = hour }

jobs_started-daily_example :
    jobs_started provider
      ((at_hour 15, at_hour 15) ∷ (at_hour 16, at_hour 16) ∷ (at_hour 17, at_hour 17) ∷ [])
      (0, enabled)
    ≤ (if ran_on 9 none then 0 else 1)
jobs_started-daily_example =
    jobs_started-daily provider 9
      ((at_hour 15, at_hour 15) ∷ (at_hour 16, at_hour 16) ∷ (at_hour 17, at_hour 17) ∷ [])
      (0, enabled) ((refl, refl), ((refl, refl), ((refl, refl), tt)))

-- The second check starts the job of the day.
started :
    jobs_started provider
      ((at_hour 15, at_hour 15) ∷ (at_hour 16, at_hour 16) ∷ (at_hour 17, at_hour 17) ∷ [])
      (0, enabled)
    ≡ 1
unfolding jobs_started trigger_if_due trigger_now build_signals quot_ℤ
started = refl
