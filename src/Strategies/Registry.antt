-- ===== src/Strategies/Registry.antt =====
-- The strategy classes of app/strategies/impl with their default hours, `generate`, and the registry
-- of app/strategies/registry.py.
use text.Mathlib.Text.{◌==◌ as str_eq}
use haru_trade_manager.Common.{
  and_then, ℕ, ◌-◌, String, not, ◌||◌, Option, none, some, List, [], ◌∷◌, map, Outcome, ok,
  if◌then◌else◌, ltb, length, Double, div, of_nat, sum_f,
}
use haru_trade_manager.Domain.{Candle, Signal, Datetime}
use haru_trade_manager.Strategies.{
  Strategy, at_time, is_active_time, last_two, before_last, on_last_two, gap_side, breakout_side,
  levels_side, surge_side, pullback_rule,
}

-- What a scan is made at: the ticker, the time, its time of day in microseconds, and the candles.
pub record Scan (F : Type 0) : Type 0 where
  pub ticker : String
  pub now : Datetime
  pub clock : ℕ
  pub candles : List (Candle F)

abbrev pub add_some : {A : Type 0} → Option A → List A → List A
add_some none xs = xs
add_some (some x) xs = x ∷ xs

module _ {F : Type 0} ⦃d : Double F⦄ where
  unfoldable pub gap_momentum : String → Strategy F
  gap_momentum timeframe = record {
    strategy_id = "1";
    timeframe = timeframe;
    active_hours = (at_time 8 0, at_time 9 0) ∷ (at_time 9 0, at_time 9 30) ∷ [];
    min_candles = 2;
    side_of = λ candles. on_last_two gap_side (last_two candles);
  }

  unfoldable pub ema_pullback : Strategy F
  ema_pullback = record {
    strategy_id = "2";
    timeframe = "15m";
    active_hours = (at_time 9 0, at_time 15 20) ∷ [];
    min_candles = 60;
    side_of = pullback_rule;
  }

  unfoldable pub volatility_breakout : String → Strategy F
  volatility_breakout timeframe = record {
    strategy_id = "3";
    timeframe = timeframe;
    active_hours = (at_time 9 0, at_time 15 20) ∷ [];
    min_candles = 2;
    side_of = λ candles. on_last_two breakout_side (last_two candles);
  }

  -- The mean of the twenty volumes before the last.
  abbrev pub surge_rule : List (Candle F) → Outcome (Option String)
  surge_rule candles =
      let recent = before_last 21 (map (λ c. c.volume) candles) in
      on_last_two (surge_side (div (sum_f recent) (of_nat (length recent)))) (last_two candles)

  unfoldable pub volume_surge : String → Strategy F
  volume_surge timeframe = record {
    strategy_id = "4";
    timeframe = timeframe;
    active_hours = (at_time 9 0, at_time 15 20) ∷ (at_time 15 30, at_time 20 0) ∷ [];
    min_candles = 21;
    side_of = surge_rule;
  }

  unfoldable pub support_resistance : Strategy F
  support_resistance = record {
    strategy_id = "5";
    timeframe = "15m";
    active_hours = (at_time 9 0, at_time 15 20) ∷ [];
    min_candles = 2;
    side_of = λ candles. on_last_two levels_side (last_two candles);
  }

  -- The strategies of a registry that is given none.
  unfoldable pub default_strategies : List (Strategy F)
  unfolding gap_momentum ema_pullback volatility_breakout volume_surge support_resistance
  default_strategies =
      gap_momentum "3m"
      ∷ ema_pullback
      ∷ volatility_breakout "3m"
      ∷ volume_surge "3m"
      ∷ support_resistance
      ∷ []

  -- `candles[-1].close`
  abbrev pub last_close : Option (Candle F × Candle F) → Option F
  last_close none = none
  last_close (some (prev, last)) = some last.close

  abbrev pub signal_of : Strategy F → Scan F → Option String → Option (Signal F)
  signal_of s scan none = none
  signal_of s scan (some side) = some (record {
    index = length scan.candles - 1;
    side = side;
    ticker = scan.ticker;
    strategy_id = s.strategy_id;
    timeframe = s.timeframe;
    price = last_close (last_two scan.candles);
    signal_time = some scan.now;
  })

  -- `generate`, whose guards and signal all strategies share
  unfoldable pub generate : Strategy F → Scan F → Outcome (Option (Signal F))
  generate s scan =
      if not (is_active_time s.active_hours scan.clock) || ltb (length scan.candles) s.min_candles
      then ok none
      else and_then (s.side_of scan.candles) (λ side. ok (signal_of s scan side))

  unfoldable pub for_timeframe : String → List (Strategy F) → List (Strategy F)
  for_timeframe timeframe [] = []
  for_timeframe timeframe (s ∷ strategies) =
      let rest = for_timeframe timeframe strategies in
      if str_eq s.timeframe timeframe then s ∷ rest else rest

  unfoldable pub generate_all : List (Strategy F) → Scan F → Outcome (List (Signal F))
  unfolding generate
  generate_all [] scan = ok []
  generate_all (s ∷ strategies) scan =
      and_then (generate s scan)
        λ signal. and_then (generate_all strategies scan) λ signals. ok (add_some signal signals)

  unfoldable pub scan_all : List (Strategy F) → String → Scan F → Outcome (List (Signal F))
  unfolding for_timeframe generate_all
  scan_all strategies timeframe scan = generate_all (for_timeframe timeframe strategies) scan
