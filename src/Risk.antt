-- ===== src/Risk.antt =====
-- app/risk/engine.py: limits, the average true range, stop and target prices, and which positions
-- are closed when the margin is exceeded.
pub mod Prices
pub mod Ranges
pub mod ForcedClose
use mathlib.Core.List.{foldl}
use text.Mathlib.Text.{◌==◌ as str_eq}
use haru_trade_manager.Common.{
  ℕ, suc, ◌≡◌, String, Bool, true, false, Option, none, some, List, [], ◌∷◌, map, Outcome, ok,
  raised, value_error, if◌then◌else◌, ltb, leb, length, Double, le, ge, add, sub, mul, div, abs_f,
  of_nat, nought, max_f, sum_f,
}

pub record PositionExposure (F : Type 0) : Type 0 where
  pub position_id : ℕ
  pub strategy_id : String
  pub market_value : F

unfoldable pub can_open_new_position : ℕ → ℕ → Bool
can_open_new_position open_count max_positions = ltb open_count max_positions

unfoldable pub hit_stop_count_limit : ℕ → ℕ → Bool
hit_stop_count_limit stop_count stop_count_limit = leb stop_count_limit stop_count

-- The sort key: the place of the strategy in the priority list, and past its end if it is missing.
unfoldable pub rank : List String → String → ℕ
rank [] s = 0
rank (p ∷ priority) s = if str_eq p s then 0 else suc (rank priority s)

module _ {F : Type 0} ⦃d : Double F⦄ where
  unfoldable pub hit_daily_loss_limit : F → F → Bool
  hit_daily_loss_limit daily_loss_pct limit = ge daily_loss_pct limit

  -- `max(high - low, abs(high - prev_close), abs(low - prev_close))`
  unfoldable pub true_range : F → F → F → F
  true_range high low prev =
      max_f (max_f (sub high low) (abs_f (sub high prev))) (abs_f (sub low prev))

  -- The loop of `compute_atr`: the previous close of the first bar is its own.
  unfoldable pub true_ranges : Option F → List F → List F → List F → List F
  true_ranges prev (h ∷ highs) (l ∷ lows) (c ∷ closes) =
      true_range h l (elim prev [ none ↦ c | some p ↦ p ]) ∷ true_ranges (some c) highs lows closes
  true_ranges prev _ _ _ = []

  unfoldable pub compute_atr : List F → List F → List F → Outcome F
  unfolding true_ranges
  compute_atr (h ∷ highs) (l ∷ lows) (c ∷ closes) =
      let trs = true_ranges none (h ∷ highs) (l ∷ lows) (c ∷ closes) in
      ok (div (sum_f trs) (of_nat (length trs)))
  compute_atr _ _ _ =
      raised (record { kind = value_error; text = "high/low/close series are required" })

  unfoldable pub build_stop_take_profit : F → F → F → F → F × F
  build_stop_take_profit entry atr stop_mult tp_mult =
      (max_f (sub entry (mul atr stop_mult)) nought, add entry (mul atr tp_mult))

  -- `sorted(exposures, key=…)`: rows of equal rank keep their order.
  unfoldable pub insert :
      List String → PositionExposure F → List (PositionExposure F) → List (PositionExposure F)
  insert priority x [] = x ∷ []
  insert priority x (y ∷ ys) =
      if leb (rank priority x.strategy_id) (rank priority y.strategy_id)
      then x ∷ y ∷ ys
      else y ∷ insert priority x ys

  unfoldable pub by_priority : List String → List (PositionExposure F) → List (PositionExposure F)
  unfolding insert
  by_priority priority [] = []
  by_priority priority (x ∷ xs) = insert priority x (by_priority priority xs)

  -- The loop: positions are closed until what is left is within the base.
  unfoldable pub close_until : F → F → List (PositionExposure F) → List ℕ
  close_until base running [] = []
  close_until base running (row ∷ rows) =
      let left = sub running row.market_value in
      let rest = close_until base left rows in row.position_id ∷ (if le left base then [] else rest)

  unfoldable pub margin_forced_close_order : List (PositionExposure F) → F → List String → List ℕ
  unfolding by_priority close_until
  margin_forced_close_order exposures base priority =
      let total = sum_f (map (λ x. x.market_value) exposures) in
      if le total base then [] else close_until base total (by_priority priority exposures)
