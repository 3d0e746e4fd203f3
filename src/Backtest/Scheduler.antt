-- ===== src/Backtest/Scheduler.antt =====
-- app/services/backtest_scheduler.py: a backtest of the day's candles, once a day. The candles, the
-- slippage and the start of a job are calls outside; the two looks at the clock are arguments.
pub mod Daily
use haru_trade_manager.Common.{
  ◌≡◌, refl, ap, ◌∙◌, ℕ, zero, suc, ◌+◌, ◌-◌, ◌≤◌, ◌<◌, String, Bool, true, false, not, Option,
  none, some, List, [], ◌∷◌, Act, Outcome, ok, raised, Failure, pure, ◌>>=◌, if◌then◌else◌, ltb,
  leb, ◌==◌, length, drop, take, fstring, show, All, arith, Double, ge, div, of_nat, nought, max_f,
  min_f, Bool-cases, inl, inr,
}
use haru_trade_manager.Domain.{Candle, Signal, Datetime}
use haru_trade_manager.Runtime.{beside}

-- A look at the clock: the day, the hour, and the time.
pub record Look : Type 0 where
  pub day : ℕ
  pub hour : ℕ
  pub time : Datetime

pub record Scheduler : Type 0 where
  pub enabled : Bool
  pub run_hour : ℕ
  pub max_signals : ℕ
  pub last_run_date : Option ℕ
  pub last_job_id : Option String
  pub last_status : Option String
  pub last_reason : Option String
  pub last_checked_at : Option Datetime

pub record Provider (F G : Type 0) : Type 0 where
  pub candles : Act G (List (Candle F))
  pub slippage_pct : Act G F
  pub start_job : List (Candle F) → List (Signal F) → F → Act G String

-- What a trigger answers: the job and the number of its signals, or that none was started.
pub data Answer : Type 0 where
  triggered : String → ℕ → Answer
  skipped : String → Answer

abbrev pub ran_on : ℕ → Option ℕ → Bool
ran_on day none = false
ran_on day (some last) = last == day

module _ {F : Type 0} ⦃d : Double F⦄ where
  abbrev pub auto_signal : ℕ → Candle F → Signal F
  auto_signal idx c = record {
    index = idx;
    side = if ge c.close c.open_price then "buy" else "sell";
    ticker = "AUTO";
    strategy_id = "default";
    timeframe = "5m";
    price = none;
    signal_time = none;
  }

  abbrev pub signals_from : ℕ → List (Candle F) → List (Signal F)
  signals_from idx [] = []
  signals_from idx (c ∷ candles) = auto_signal idx c ∷ signals_from (suc idx) candles

  -- `_build_signals`: one for each of the last bars but the very last.
  unfoldable pub build_signals : ℕ → List (Candle F) → List (Signal F)
  build_signals max_signals candles =
      let end = length candles - 1 in
      let start = end - max_signals in signals_from start (take (end - start) (drop start candles))

  module _ {G : Type 0} (provider : Provider F G) where
    -- `_skip`
    abbrev pub skip : String → Act (G × Scheduler) Answer
    skip reason (g, s) = (
      ok (skipped reason),
      (g, record s { last_status = some "skipped"; last_reason = some reason }),
    )

    -- `min(max(float(slippage), 0.0), 0.5)`
    abbrev pub clamped : F → F
    clamped slippage = min_f (max_f slippage nought) (div (of_nat 5) (of_nat 10))

    abbrev pub note_job : String → Look → ℕ → String → Act (G × Scheduler) Answer
    note_job reason later count job_id (g, s) = (
      ok (triggered job_id count),
      (
        g,
        record s {
          last_run_date = some later.day;
          last_job_id = some job_id;
          last_status = some "triggered";
          last_reason = some reason;
        },
      ),
    )

    abbrev pub start :
        String → Look → List (Candle F) → List (Signal F) → Act (G × Scheduler) Answer
    start reason later candles signals =
        beside (provider.slippage_pct >>= λ pct. provider.start_job candles signals (clamped pct))
        >>= note_job reason later (length signals)

    abbrev pub with_candles : String → Look → List (Candle F) → Act (G × Scheduler) Answer
    unfolding build_signals
    with_candles reason later candles w =
        let signals = build_signals w.1.max_signals candles in
        (if ltb (length candles) 2
            then skip "insufficient_candles"
            else if length signals == 0
            then skip "no_signals"
            else start reason later candles signals)
          w

    -- `trigger_now`
    unfoldable pub trigger_now : String → Look → Act (G × Scheduler) Answer
    unfolding with_candles
    trigger_now reason later = beside provider.candles >>= with_candles reason later

    abbrev pub trigger_at : Bool → ℕ → Option ℕ → Look → Look → Act (G × Scheduler) Answer
    unfolding trigger_now
    trigger_at enabled run_hour last_run_date now later =
        if not enabled
        then skip "disabled"
        else if ltb now.hour run_hour
        then skip (fstring ("before_run_hour(" ∷ show run_hour ∷ ")" ∷ []))
        else if ran_on now.day last_run_date
        then skip "already_ran_today"
        else trigger_now "scheduled" later

    -- `trigger_if_due`
    unfoldable pub trigger_if_due : Look → Look → Act (G × Scheduler) Answer
    unfolding trigger_at
    trigger_if_due now later (g, s) =
        trigger_at s.enabled s.run_hour s.last_run_date now later
          (g, record s { last_checked_at = some now.time })

    abbrev pub is_triggered : Outcome Answer → Bool
    is_triggered (ok (triggered job_id count)) = true
    is_triggered (ok (skipped reason)) = false
    is_triggered (raised e) = false

    -- How many of some checks, one after the other, start a job.
    unfoldable pub jobs_started : List (Look × Look) → G × Scheduler → ℕ
    unfolding trigger_if_due
    jobs_started [] w = 0
    jobs_started ((now, later) ∷ looks) w =
        let (r, w') = trigger_if_due now later w in
        let rest = jobs_started looks w' in if is_triggered r then suc rest else rest
