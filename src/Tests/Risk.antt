-- ===== src/Tests/Risk.antt =====
-- Samples of app/risk/engine.py.
use mathlib.Core.List.{Perm}
use haru_trade_manager.Common.{
  ◌≡◌,
  ◌⊎◌,
  refl,
  List,
  [],
  ◌∷◌,
  ◌++◌,
  map,
  ℤ_double,
  ℤ-IsOrdered,
  ◌≼◌,
  nought,
  sum_f,
  Int.{ℤ, pos, ◌+ℤ◌, ◌-ℤ◌, ◌*ℤ◌},
}
use haru_trade_manager.Risk.{
  PositionExposure, rank, margin_forced_close_order, build_stop_take_profit,
}
use haru_trade_manager.Risk.ForcedClose.{AreFirst, AreNeeded, drain, margin_forced_close_order_lem}
use haru_trade_manager.Risk.Prices.{build_stop_take_profit_brackets}

abbrev exposures : List (PositionExposure ℤ)
exposures =
    record { position_id = 1; strategy_id = "4"; market_value = pos 40 }
    ∷ record { position_id = 2; strategy_id = "1"; market_value = pos 50 }
    ∷ record { position_id = 3; strategy_id = "9"; market_value = pos 30 }
    ∷ record { position_id = 4; strategy_id = "1"; market_value = pos 10 }
    ∷ []

forced_order : margin_forced_close_order exposures (pos 65) ("1" ∷ "2" ∷ "4" ∷ []) ≡ 2 ∷ 4 ∷ 1 ∷ []
unfolding margin_forced_close_order rank ◌+ℤ◌ ◌-ℤ◌
forced_order = refl

margin_forced_close_order_example :
    (closed kept : List (PositionExposure ℤ)) × Perm (closed ++ kept) exposures
    × (margin_forced_close_order exposures (pos 65) ("1" ∷ "2" ∷ [])
        ≡ map (λ x. x.position_id) closed)
    × AreFirst ("1" ∷ "2" ∷ []) closed kept
    × AreNeeded (pos 65) (sum_f (map (λ x. x.market_value) exposures)) closed
    × ((drain (sum_f (map (λ x. x.market_value) exposures)) closed ≼ pos 65) ⊎ (kept ≡ []))
margin_forced_close_order_example =
    margin_forced_close_order_lem exposures (pos 65) ("1" ∷ "2" ∷ []) (unfold ◌+ℤ◌ in refl)

build_stop_take_profit_brackets_example :
    let (stop, target) = build_stop_take_profit (pos 100) (pos 2) (pos 1) (pos 3) in
    (nought ≼ stop) × (stop ≼ pos 100) × (pos 100 ≼ target)
unfolding ◌+ℤ◌ ◌-ℤ◌ ◌*ℤ◌
build_stop_take_profit_brackets_example =
    build_stop_take_profit_brackets ℤ-IsOrdered (pos 100) (pos 2) (pos 1) (pos 3) refl refl refl
      refl refl
