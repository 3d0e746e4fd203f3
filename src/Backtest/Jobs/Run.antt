-- ===== src/Backtest/Jobs/Run.antt =====
-- `_run_job` of app/services/backtest_jobs.py. Wherever it waits, other tasks may change the jobs.
use text.Mathlib.Text.{◌==◌ as str_eq}
use haru_trade_manager.Common.{
  ℕ, suc, max, min, String, Bool, true, false, Option, none, some, List, [], ◌∷◌, Outcome, ok,
  Failure, Act, pure, lift, catch, ◌>>=◌, ◌>>◌, if◌then◌else◌, length, strip, fstring, show, lookup,
  insert, Double, div, mul, of_nat,
}
use haru_trade_manager.Domain.{Datetime, Candle, Signal}
use haru_trade_manager.Runtime.{AlertSink, beside}
use haru_trade_manager.Backtest.{Multiples}
use haru_trade_manager.Backtest.Jobs.{Job, Jobs, Meta, Result}
use haru_trade_manager.Backtest.Jobs.Tally.{Tally, no_trades, tally_signal, result_of}

-- What a run is given from outside: the clock, what other tasks do while it waits, the alert sink,
-- and of Python `** 2`, `math.sqrt`, `int` of a float that is not negative, `lower`, the first eight
-- letters of an id, and a float with three digits.
pub record Outside (F G : Type 0) : Type 0 where
  pub now : G → Datetime
  pub others : G × Jobs F → G × Jobs F
  pub alert_sink : Option (AlertSink G)
  pub square : F → Outcome F
  pub sqrt : F → Outcome F
  pub truncate : F → ℕ
  pub lower : String → String
  pub head : String → String
  pub show_rate : F → String

module _ {F : Type 0} where
  -- A row is changed in place, if the job is still there.
  abbrev pub change_found : String → (Job F → Job F) → Option (Job F) → Jobs F → Jobs F
  change_found job_id f none jobs = jobs
  change_found job_id f (some row) jobs = insert job_id (f row) jobs

  abbrev pub changed : (Job F → Job F) → Option (Job F) → Option (Job F)
  changed f none = none
  changed f (some row) = some (f row)

module _ {F G : Type 0} ⦃d : Double F⦄ (o : Outside F G) (job_id : String) where
  -- `await`
  abbrev pub wait : Act (G × Jobs F) (Unit {0})
  wait w = (ok tt, o.others w)

  abbrev pub change : (Datetime → Job F → Job F) → Act (G × Jobs F) (Option (Job F))
  change f (g, jobs) =
      let found = lookup job_id jobs in
      (ok (changed (f (o.now g)) found), (g, change_found job_id (f (o.now g)) found jobs))

  -- `async with self._lock`, the row that is there, and its change
  unfoldable pub change_row : (Datetime → Job F → Job F) → Act (G × Jobs F) (Option (Job F))
  change_row f = wait >> change f

  abbrev pub running : Datetime → Job F → Job F
  running now row = record row { status = "running"; started_at = some now }

  abbrev pub at_progress : ℕ → Datetime → Job F → Job F
  at_progress progress now row = record row { progress = max 0 (min progress 100) }

  -- `_update_progress`
  unfoldable pub update_progress : ℕ → Act (G × Jobs F) (Option (Job F))
  unfolding change_row
  update_progress progress = change_row (at_progress progress)

  -- `int(((idx + 1) / total) * 100)`
  abbrev pub percent : ℕ → ℕ → ℕ
  percent idx total = o.truncate (mul (div (of_nat (suc idx)) (of_nat total)) (of_nat 100))

  -- The loop over the signals.
  unfoldable pub run_signals :
      F
      → Multiples F
      → List (Candle F)
      → ℕ
      → ℕ
      → List (Signal F)
      → Tally F
      → Act (G × Jobs F) (Tally F)
  unfolding update_progress tally_signal
  run_signals slippage_pct m candles total idx [] t = pure t
  run_signals slippage_pct m candles total idx (signal ∷ signals) t =
      wait >> lift (tally_signal slippage_pct m candles signal t) >>= λ t'.
      update_progress (percent idx total)
      >> run_signals slippage_pct m candles total (suc idx) signals t'

  -- `_should_notify_completion`
  abbrev pub should_notify : Job F → Bool
  should_notify row =
      if str_eq (o.lower (strip row.meta.source)) "dashboard_manual" then false else true

  abbrev pub send : Option (AlertSink G) → String → Act (G × Jobs F) (Unit {0})
  send none text = pure tt
  send (some sink) text = beside (sink.send_message text) >> pure tt

  unfoldable pub notify : String → Option (Job F) → Act (G × Jobs F) (Unit {0})
  notify text none = pure tt
  notify text (some row) = if should_notify row then send o.alert_sink text else pure tt

  abbrev pub completed : Result F → Datetime → Job F → Job F
  completed result now row = record row {
    status = "completed";
    progress = 100;
    result = some result;
    completed_at = some now;
  }

  abbrev pub completed_text : Result F → String
  completed_text result = fstring (
      "[백테스트 완료] 작업="
      ∷ o.head job_id
      ∷ " 거래수="
      ∷ show result.trade_count
      ∷ " 승률="
      ∷ o.show_rate result.win_rate
      ∷ [])

  unfoldable pub complete : Result F → Act (G × Jobs F) (Unit {0})
  unfolding change_row notify
  complete result = change_row (completed result) >>= notify (completed_text result)

  abbrev pub failed : Failure → Datetime → Job F → Job F
  failed exc now row = record row {
    status = "failed";
    error = some exc.text;
    completed_at = some now;
  }

  abbrev pub failed_text : Failure → String
  failed_text exc = fstring ("[백테스트 실패] 작업=" ∷ o.head job_id ∷ " 오류=" ∷ exc.text ∷ [])

  -- `except Exception as exc`
  unfoldable pub fail : Failure → Act (G × Jobs F) (Unit {0})
  unfolding change_row notify
  fail exc = change_row (failed exc) >>= notify (failed_text exc)

  -- The body of the `try`.
  unfoldable pub try_run :
      F → List (Candle F) → List (Signal F) → Meta F → Act (G × Jobs F) (Unit {0})
  unfolding run_signals complete result_of
  try_run slippage_pct candles signals meta = lift meta.multiples >>= λ m.
      run_signals slippage_pct m candles (max (length signals) 1) 0 signals no_trades >>= λ t.
      lift (result_of o.square o.sqrt m t) >>= complete

  unfoldable pub run_found :
      F → List (Candle F) → List (Signal F) → Option (Job F) → Act (G × Jobs F) (Unit {0})
  unfolding try_run fail
  run_found slippage_pct candles signals none = pure tt
  run_found slippage_pct candles signals (some row) =
      catch (try_run slippage_pct candles signals row.meta) fail

  -- `_run_job`
  unfoldable pub run_job : F → List (Candle F) → List (Signal F) → Act (G × Jobs F) (Unit {0})
  unfolding change_row run_found
  run_job slippage_pct candles signals =
      change_row running >>= run_found slippage_pct candles signals
