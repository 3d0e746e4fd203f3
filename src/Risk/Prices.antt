-- ===== src/Risk/Prices.antt =====
-- The stop and target prices of a new position.
use haru_trade_manager.Common.{
  arith, Double, IsOrdered, IsNumber, ◌≼◌, nought, add, sub, mul, max_f-bounds,
}
use haru_trade_manager.Risk.{build_stop_take_profit}

-- With an entry price and distances that are not negative, the stop lies between 0 and the entry
-- price, and the target is no less than the entry price.
pub build_stop_take_profit_brackets :
    {F : Type 0} ⦃d : Double F⦄
    → IsOrdered F
    → (entry atr stop_mult tp_mult : F) → nought ≼ entry
    → nought ≼ mul atr stop_mult
    → nought ≼ mul atr tp_mult
    → IsNumber (sub entry (mul atr stop_mult))
    → IsNumber (add entry (mul atr tp_mult))
    → let (stop, target) = build_stop_take_profit entry atr stop_mult tp_mult in
      (nought ≼ stop) × (stop ≼ entry) × (entry ≼ target)
unfolding build_stop_take_profit
build_stop_take_profit_brackets ord entry atr stop_mult tp_mult pe ps pt ns nt = ground (
  arith,
  max_f-bounds ord (sub entry (mul atr stop_mult)) nought ns ord.nought-IsNumber,
  ord.sub-le entry (mul atr stop_mult) ps ns,
  ord.le-add entry (mul atr tp_mult) pt nt,
)
