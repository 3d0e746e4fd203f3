-- ===== src/Strategies.antt =====
-- app/strategies: the five strategies as functions of the candles, and the registry that runs them.
-- A strategy class is a record: its guards, and the side of the signal that its rule gives. The
-- time of day is in microseconds; decimal constants are quotients of whole numbers, which floats
-- round alike.
pub mod Registry
pub mod Emitted
use haru_trade_manager.Common.{
  and_then, ℕ, ◌+◌, ◌-◌, ◌*◌, String, Bool, true, false, not, ◌&&◌, ◌||◌, Option, none, some, List,
  [], ◌∷◌, map, Outcome, ok, raised, value_error, other_error, if◌then◌else◌, ltb, leb, length,
  drop, take, any, Double, le, lt, ge, gt, eq, add, sub, mul, div, abs_f, of_nat, nought, sum_f,
}
use text.Mathlib.Text.{◌==◌ as str_eq}
use haru_trade_manager.Domain.{Candle, Signal, Datetime}

pub record Strategy (F : Type 0) : Type 0 where
  pub strategy_id : String
  pub timeframe : String
  pub active_hours : List (ℕ × ℕ)
  pub min_candles : ℕ
  pub side_of : List (Candle F) → Outcome (Option String)

-- `time(hour=hh, minute=mm)`
abbrev pub at_time : ℕ → ℕ → ℕ
at_time hh mm = (hh * 60 + mm) * 60000000

unfoldable pub is_active_time : List (ℕ × ℕ) → ℕ → Bool
is_active_time hours current = any (λ (start, end). leb start current && leb current end) hours

-- The last two of a list, `xs[-2]` and `xs[-1]`.
unfoldable pub last_two : {A : Type 0} → List A → Option (A × A)
last_two [] = none
last_two (x ∷ []) = none
last_two (x ∷ y ∷ []) = some (x, y)
last_two (x ∷ y ∷ z ∷ xs) = last_two (y ∷ z ∷ xs)

-- `xs[-n:-1]`, where there are n of them
abbrev pub before_last : {A : Type 0} → ℕ → List A → List A
before_last n xs = take (n - 1) (drop (length xs - n) xs)

abbrev pub if_so : Bool → String → Outcome (Option String)
if_so test side = ok (if test then some side else none)

module _ {F : Type 0} ⦃d : Double F⦄ where
  abbrev pub ratio : ℕ → ℕ → F
  ratio a b = div (of_nat a) (of_nat b)

  ema_from : F → F → List F → F
  ema_from k current [] = current
  ema_from k current (v ∷ values) =
      ema_from k (add (mul v k) (mul current (sub (of_nat 1) k))) values

  unfoldable pub ema : List F → ℕ → Outcome F
  unfolding ema_from
  ema values period =
      if leb period 0
      then raised (record { kind = value_error; text = "period must be positive" })
      else (if ltb (length values) period
          then raised (record { kind = value_error; text = "not enough samples for EMA" })
          else ok (
              ema_from (ratio 2 (period + 1)) (div (sum_f (take period values)) (of_nat period))
                (drop period values)))

  -- A rule that reads the last two candles; there are two where it is asked.
  abbrev pub on_last_two :
      (Candle F → Candle F → Option String) → Option (Candle F × Candle F) → Outcome (Option String)
  on_last_two rule none = ok none
  on_last_two rule (some (prev, last)) = ok (rule prev last)

  unfoldable pub gap_side : Candle F → Candle F → Option String
  gap_side prev last =
      let gap = div (sub last.open_price prev.close) prev.close in
      if le prev.close nought
      then none
      else (if lt (abs_f gap) (ratio 2 100)
          then none
          else some (if gt gap nought then "buy" else "sell"))

  unfoldable pub breakout_side : Candle F → Candle F → Option String
  breakout_side prev current =
      let target = add prev.high (mul (sub prev.high prev.low) (ratio 1 2)) in
      if lt current.high target || lt current.close target then none else some "buy"

  unfoldable pub levels_side : Candle F → Candle F → Option String
  levels_side prev last =
      let pivot = div (add (add prev.high prev.low) prev.close) (of_nat 3) in
      let resistance = sub (mul (of_nat 2) pivot) prev.low in
      let support = sub (mul (of_nat 2) pivot) prev.high in
      let breakout = ge last.close resistance && ge last.volume prev.volume in
      let rebound =
        gt support nought
        && le (div (abs_f (sub last.low support)) support) (ratio 3 1000)
        && gt last.close support
        && ge last.close last.open_price in
      if not (breakout || rebound) then none else some "buy"

  unfoldable pub surge_side : F → Candle F → Candle F → Option String
  surge_side avg20 prev last =
      if le avg20 nought
      then none
      else (if lt last.volume (mul avg20 (of_nat 3))
          then none
          else (if le prev.close nought
              then none
              else (if lt (div (sub last.close prev.close) prev.close) (ratio 1 100)
                  then none
                  else some "buy")))

  -- The volumes of the last candles against the one before them.
  abbrev pub is_thin : List F → F → Bool
  is_thin vols last =
      let recent_avg = div (sum_f (before_last 20 vols)) (of_nat 19) in
      leb 20 (length vols) && gt recent_avg nought && lt last recent_avg

  unfoldable pub pullback_side : F → F → F → Bool → F → Outcome (Option String)
  pullback_side ema5 ema20 ema60 thin last_close =
      if not (gt ema5 ema20 && gt ema20 ema60)
      then ok none
      else (if eq ema20 nought
          then raised (record { kind = other_error; text = "float division by zero" })
          else (if gt (div (abs_f (sub last_close ema20)) ema20) (ratio 1 100)
              then ok none
              else (if thin then ok none else ok (some "buy"))))

  -- The last candle of a list that has one.
  abbrev pub with_last :
      (Candle F → Outcome (Option String)) → Option (Candle F × Candle F) → Outcome (Option String)
  with_last f none = ok none
  with_last f (some (prev, last)) = f last

  unfoldable pub pullback_rule : List (Candle F) → Outcome (Option String)
  unfolding ema pullback_side
  pullback_rule candles =
      let cls = map (λ c. c.close) candles in
      let vols = map (λ c. c.volume) candles in
      and_then (ema cls 5) λ ema5. and_then (ema cls 20) λ ema20. and_then (ema cls 60) λ ema60.
        with_last (λ last. pullback_side ema5 ema20 ema60 (is_thin vols last.volume) last.close)
          (last_two candles)
