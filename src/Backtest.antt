-- ===== src/Backtest.antt =====
-- app/backtest/core.py and the simulation of one trade in app/services/backtest_jobs.py: the entry
-- at the open of the next bar, and the bars from there on against stop, target and trailing stop.
pub mod Lookahead
pub mod Drawdown
pub mod Scheduler
pub mod Jobs
use text.Mathlib.Text.{◌==◌ as str_eq}
use haru_trade_manager.Common.{
  ℕ, zero, suc, ◌+◌, ◌-◌, String, Bool, true, false, Option, none, some, List, [], ◌∷◌, map,
  Outcome, ok, raised, value_error, other_error, and_then, raise_if, if◌then◌else◌, leb, length,
  drop, take, get_elem?, Double, le, lt, gt, ge, eq, add, sub, mul, div, of_nat, nought, max_f,
  min_f,
}
use haru_trade_manager.Domain.{Candle, Signal}
use haru_trade_manager.Risk

pub record Multiples (F : Type 0) : Type 0 where
  pub atr_period : ℕ
  pub stop_atr_mult : F
  pub tp_atr_mult : F
  pub trail_atr_mult : F

-- What the loop over the bars changes; `extreme` is the highest, or for a sale the lowest.
pub record Trade (F : Type 0) : Type 0 where
  pub remaining : F
  pub realized : F
  pub half_closed : Bool
  pub extreme : Option F
  pub reason : String

-- The prices of a trade: the entry, the stop, the target and the distance of the trailing stop.
pub record Levels (F : Type 0) : Type 0 where
  pub entry_price : F
  pub stop_price : F
  pub take_profit_price : F
  pub trail : F

abbrev pub not_enough : {A : Type 0} → Outcome A
not_enough = raised (record { kind = value_error; text = "N+1 candle required" })

-- `candles[-1]`
abbrev pub last_of : {A : Type 0} → List A → Option A
last_of [] = none
last_of (c ∷ []) = some c
last_of (c ∷ b ∷ bars) = last_of (b ∷ bars)

module _ {F : Type 0} ⦃d : Double F⦄ where
  -- `raw * (1 + self.slippage_pct / 100.0)`, or less it
  abbrev pub slipped : String → F → F → F
  slipped side slippage_pct raw =
      let part = div slippage_pct (of_nat 100) in
      if str_eq side "buy" then mul raw (add (of_nat 1) part) else mul raw (sub (of_nat 1) part)

  -- `entry_price_n_plus_one_open`
  unfoldable pub entry_price_n_plus_one_open : String → F → Option (Candle F) → Outcome F
  entry_price_n_plus_one_open side slippage_pct none = not_enough
  entry_price_n_plus_one_open side slippage_pct (some next) =
      ok (slipped side slippage_pct next.open_price)

  -- `max(float(atr), 1e-9)`
  abbrev pub at_least_little : F → F
  at_least_little atr = max_f atr (div (of_nat 1) (of_nat 1000000000))

  abbrev pub atr_of : List (Candle F) → Outcome F
  atr_of [] = ok (of_nat 1)
  atr_of (c ∷ window) =
      and_then
        (Risk.compute_atr (map (λ x. x.high) (c ∷ window)) (map (λ x. x.low) (c ∷ window))
          (map (λ x. x.close) (c ∷ window)))
        (λ atr. ok (at_least_little atr))

  -- `candles[start : signal_index + 1]`, with `start = max(0, signal_index - atr_period + 1)`
  abbrev pub window_of : List (Candle F) → ℕ → ℕ → List (Candle F)
  window_of candles index period =
      let start = suc index - period in take (suc index - start) (drop start candles)

  -- `_compute_atr`
  unfoldable pub compute_atr : List (Candle F) → ℕ → ℕ → Outcome F
  compute_atr candles index period = atr_of (window_of candles index period)

  unfoldable pub opened : Trade F
  opened = record {
    remaining = of_nat 1;
    realized = nought;
    half_closed = false;
    extreme = none;
    reason = "end_of_data";
  }

  -- The whole rest is closed at a gain per unit; the loop stops.
  unfoldable pub close_all : F → String → Trade F → Bool × Trade F
  close_all gain reason t = (
    true,
    record t {
      realized = add t.realized (mul gain t.remaining);
      remaining = nought;
      reason = reason;
    },
  )

  abbrev pub close_half : F → Trade F → Trade F
  close_half gain t =
      let close_qty = div t.remaining (of_nat 2) in
      record t {
        realized = add t.realized (mul gain close_qty);
        remaining = sub t.remaining close_qty;
        half_closed = true;
      }

  -- `highest or candle.high`: 0.0 counts as missing.
  abbrev pub or_bar : Option F → F → F
  or_bar none bar = bar
  or_bar (some x) bar = if eq x nought then bar else x

  abbrev pub long_trail : Levels F → Candle F → F → Trade F → Bool × Trade F
  unfolding close_all
  long_trail l candle highest t =
      let trailing_stop = max_f (sub highest l.trail) nought in
      let t' = record t { extreme = some highest } in
      if le candle.low trailing_stop
      then close_all (sub trailing_stop l.entry_price) "trailing_stop" t'
      else (false, t')

  -- One bar of `_simulate_long_trade`: whether the loop stops, and the trade.
  unfoldable pub long_bar : Levels F → Candle F → Trade F → Bool × Trade F
  unfolding close_all long_trail
  long_bar l candle t =
      if t.half_closed
      then long_trail l candle (max_f (or_bar t.extreme candle.high) candle.high) t
      else if le candle.low l.stop_price
      then close_all (sub l.stop_price l.entry_price) "stop_loss" t
      else if ge candle.high l.take_profit_price
      then long_trail l candle (max_f candle.high l.take_profit_price)
          (close_half (sub l.take_profit_price l.entry_price) t)
      else (false, t)

  abbrev pub short_trail : Levels F → Candle F → F → Trade F → Bool × Trade F
  unfolding close_all
  short_trail l candle lowest t =
      let trailing_stop = add lowest l.trail in
      let t' = record t { extreme = some lowest } in
      if ge candle.high trailing_stop
      then close_all (sub l.entry_price trailing_stop) "trailing_stop" t'
      else (false, t')

  -- One bar of `_simulate_short_trade`.
  unfoldable pub short_bar : Levels F → Candle F → Trade F → Bool × Trade F
  unfolding close_all short_trail
  short_bar l candle t =
      if t.half_closed
      then short_trail l candle (min_f (or_bar t.extreme candle.low) candle.low) t
      else if ge candle.high l.stop_price
      then close_all (sub l.entry_price l.stop_price) "stop_loss" t
      else if le candle.low l.take_profit_price
      then short_trail l candle (min_f candle.low l.take_profit_price)
          (close_half (sub l.entry_price l.take_profit_price) t)
      else (false, t)

  -- The loop over the bars.
  unfoldable pub run_bars :
      (Candle F → Trade F → Bool × Trade F) → List (Candle F) → Trade F → Trade F
  run_bars bar [] t = t
  run_bars bar (candle ∷ candles) t =
      let (stops, t') = bar candle t in
      let rest = run_bars bar candles t' in
      if le t.remaining nought then t else if stops then t' else rest

  -- The gain per unit: `exit_price - entry_price`, and the other way round for a sale.
  abbrev pub gain_of : Bool → F → F → F
  gain_of is_long entry_price exit_price =
      if is_long then sub exit_price entry_price else sub entry_price exit_price

  abbrev pub report : F → Trade F → F × F × String
  report entry_price t =
      (t.realized, (if gt entry_price nought then div t.realized entry_price else nought), t.reason)

  -- What is left after the bars is closed at the last close.
  unfoldable pub close_rest : Bool → F → Option (Candle F) → Trade F → Outcome (F × F × String)
  close_rest is_long entry_price none t =
      if gt t.remaining nought
      then raised (record { kind = other_error; text = "list index out of range" })
      else ok (report entry_price t)
  close_rest is_long entry_price (some last) t =
      if gt t.remaining nought
      then ok (
          report entry_price (record t {
            realized = add t.realized (mul (gain_of is_long entry_price last.close) t.remaining);
            reason = "end_of_data";
          }))
      else ok (report entry_price t)

  abbrev pub long_levels : Multiples F → F → F → Levels F
  long_levels m entry_price atr = record {
    entry_price = entry_price;
    stop_price = max_f (sub entry_price (mul atr m.stop_atr_mult)) nought;
    take_profit_price = add entry_price (mul atr m.tp_atr_mult);
    trail = mul atr m.trail_atr_mult;
  }

  abbrev pub short_levels : Multiples F → F → F → Levels F
  short_levels m entry_price atr = record {
    entry_price = entry_price;
    stop_price = add entry_price (mul atr m.stop_atr_mult);
    take_profit_price = max_f (sub entry_price (mul atr m.tp_atr_mult)) nought;
    trail = mul atr m.trail_atr_mult;
  }

  -- `_simulate_long_trade`
  unfoldable pub simulate_long_trade :
      Multiples F → List (Candle F) → ℕ → F → F → Outcome (F × F × String)
  unfolding run_bars close_rest opened long_bar
  simulate_long_trade m candles entry_idx entry_price atr =
      close_rest true entry_price (last_of candles)
        (run_bars (long_bar (long_levels m entry_price atr)) (drop entry_idx candles) opened)

  -- `_simulate_short_trade`
  unfoldable pub simulate_short_trade :
      Multiples F → List (Candle F) → ℕ → F → F → Outcome (F × F × String)
  unfolding run_bars close_rest opened short_bar
  simulate_short_trade m candles entry_idx entry_price atr =
      close_rest false entry_price (last_of candles)
        (run_bars (short_bar (short_levels m entry_price atr)) (drop entry_idx candles) opened)

  -- `_simulate_trade`, from the average true range on
  abbrev pub by_side : Multiples F → List (Candle F) → Signal F → F → F → Outcome (F × F × String)
  unfolding simulate_long_trade simulate_short_trade
  by_side m candles signal entry atr =
      if str_eq signal.side "sell"
      then simulate_short_trade m candles (suc signal.index) entry atr
      else simulate_long_trade m candles (suc signal.index) entry atr

  abbrev pub from_atr : Multiples F → List (Candle F) → Signal F → F → Outcome (F × F × String)
  unfolding compute_atr by_side
  from_atr m candles signal entry =
      and_then (compute_atr candles signal.index m.atr_period) (by_side m candles signal entry)

  abbrev pub from_entry : Multiples F → List (Candle F) → Signal F → F → Outcome (F × F × String)
  unfolding from_atr
  from_entry m candles signal entry =
      and_then (raise_if (le entry nought) value_error "invalid_entry_price")
        (λ _. from_atr m candles signal entry)

  -- `_simulate_trade`
  unfoldable pub simulate_trade :
      F → Multiples F → List (Candle F) → Signal F → Outcome (F × F × String)
  unfolding entry_price_n_plus_one_open from_entry
  simulate_trade slippage_pct m candles signal =
      let entry_idx = suc signal.index in
      and_then (raise_if (leb (length candles) entry_idx) value_error "N+1 candle required") λ _.
        and_then
          (entry_price_n_plus_one_open signal.side slippage_pct (get_elem? candles entry_idx))
          (from_entry m candles signal)
