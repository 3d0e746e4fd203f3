-- ===== src/Orders/Position/Decide.antt =====
-- What `decide` and `apply` do to a position, on every branch.
use haru_trade_manager.Common.{
  ◌≡◌, ◌⊎◌, Option, none, some, arith, Double, sub, mul, nought, max_f, max_f-bounds, IsOrdered,
  IsNumber, ◌≼◌, ◌≢◌,
}
use haru_trade_manager.Domain.{Datetime}
use haru_trade_manager.Orders.Position.{
  PositionState, open_state, half_closed, closed, PositionSnapshot, Transition, PositionRow, decide,
  or_price, apply,
}

-- The diagram of a position's states.
infix 40 ◌⟶◌
pub data ◌⟶◌ : PositionState → PositionState → Type 0 where
  keep : {s : PositionState} → s ⟶ s
  take_half : open_state ⟶ half_closed
  stop_out : open_state ⟶ closed
  trail_out : half_closed ⟶ closed

-- The price is at or under a stop that is set.
abbrev pub IsAtStop : {F : Type 0} ⦃d : Double F⦄ → F → Option F → Type 0
IsAtStop price none = ⊥
IsAtStop price (some stop) = price ≼ stop

module _ {F : Type 0} ⦃d : Double F⦄ (p : PositionSnapshot F) (price atr mult : F) where
  -- At every price the decision follows an edge of the diagram: a position never opens again, and
  -- only an open one is halved.
  pub decide-⟶ : p.state ⟶ (decide p price atr mult).new_state
  unfolding decide
  decide-⟶ = grind (arith, keep, take_half, stop_out, trail_out)

  -- When a position that was not closed is closed: an open one at or under its stop price, with its
  -- whole quantity, and a halved one at or under the trailing stop that this price gives.
  pub decide-closed :
      p.state ≢ closed
      → (decide p price atr mult).new_state ≡ closed
      → let t = decide p price atr mult in
        (t.close_qty ≡ p.remaining_quantity)
        × ((p.state ≡ open_state) × (price ≼ p.stop_price) × (t.reason ≡ some "stop_loss")
            ⊎ (p.state ≡ half_closed)
              × IsAtStop price t.new_trailing_stop
              × (t.reason ≡ some "trailing_stop"))
  unfolding decide
  decide-closed ne h = ground arith

module _ {F : Type 0} ⦃d : Double F⦄ (ord : IsOrdered F) where
  -- In a halved position whose recorded high is a number, at a price of at least 0, the new high is
  -- no less than the old high and the price, and the new trailing stop lies the ATR distance below
  -- it.
  pub decide_ratchet :
      (p : PositionSnapshot F) (price atr mult old : F)
      → p.state ≡ half_closed
      → p.highest_price ≡ some old
      → IsNumber old
      → nought ≼ price
      → let t = decide p price atr mult in
        (high : F) × (t.new_highest ≡ some high)
        × (old ≼ high)
        × (price ≼ high)
        × (t.new_trailing_stop ≡ some (sub high (mul atr mult)))
  unfolding decide
  decide_ratchet p price atr mult old s h num pos = (
    max_f (or_price (some old) price) price,
    ground arith,
    ground (
      arith,
      ord.number_of_le nought price pos,
      max_f-bounds ord old price,
      max_f-bounds ord price price,
      ord.le_trans old nought price,
    ),
    ground (
      arith,
      ord.number_of_le nought price pos,
      max_f-bounds ord old price,
      max_f-bounds ord price price,
    ),
    ground arith,
  )

  -- A transition leaves a position a quantity between 0 and the one it had, when that one is not
  -- negative and the difference is a number.
  pub apply-remaining :
      (now : Datetime) (t : Transition F) (row : PositionRow F)
      → IsNumber (sub row.remaining_quantity t.close_qty)
      → nought ≼ row.remaining_quantity
      → let left = (apply now t row).remaining_quantity in
        (nought ≼ left) × (left ≼ row.remaining_quantity)
  unfolding apply
  apply-remaining now t row num pos =
      let rest = sub row.remaining_quantity t.close_qty in
      ground (
        arith,
        ord.number_of_le nought row.remaining_quantity pos,
        max_f-bounds ord rest nought num ord.nought-IsNumber,
        ord.sub-le row.remaining_quantity t.close_qty,
        ord.lt-eq-not-le nought t.close_qty,
        ord.number_of_lt nought t.close_qty,
        ord.le_total nought t.close_qty ord.nought-IsNumber,
      )

  -- When the decision closes the position that its snapshot was taken from, and the quantity is a
  -- number, the row ends closed, with nothing left in it, and stamped with the time.
  pub close_leaves_nothing :
      (p : PositionSnapshot F) (price atr mult : F) (now : Datetime) (row : PositionRow F)
      → p.remaining_quantity ≡ row.remaining_quantity
      → p.state ≢ closed
      → (decide p price atr mult).new_state ≡ closed
      → IsNumber (sub row.remaining_quantity row.remaining_quantity)
      → IsNumber row.remaining_quantity
      → let row' = apply now (decide p price atr mult) row in
        (row'.state ≡ closed) × (row'.remaining_quantity ≼ nought) × (row'.closed_time ≡ some now)
  unfolding apply
  close_leaves_nothing p price atr mult now row same ne c num num' =
      let r = row.remaining_quantity in
      ground (
        arith,
        decide-closed p price atr mult ne c,
        ord.nought-IsNumber,
        ord.sub-self r num,
        ord.lt-eq-not-le nought r ord.nought-IsNumber num',
        ord.le_total nought r ord.nought-IsNumber num',
      )
