-- ===== src/Orders/Position.antt =====
-- app/orders/state_machine.py: what to do with a position at a price, and the update of the row
-- that holds it.
pub mod Decide
use haru_trade_manager.Common.{
  ℕ, String, Bool, true, false, Option, none, some, if◌then◌else◌, Double, le, ge, gt, sub, mul,
  div, of_nat, nought, max_f, is_set, eq,
}
use haru_trade_manager.Domain.{Datetime}

-- The text of the state column; `other` is any text that the code does not name.
pub data PositionState : Type 0 where
  open_state half_closed closed : PositionState
  other : String → PositionState

pub record PositionSnapshot (F : Type 0) : Type 0 where
  pub state : PositionState
  pub remaining_quantity : F
  pub stop_price : F
  pub take_profit_price : F
  pub trailing_stop_price : Option F
  pub highest_price : Option F

pub record Transition (F : Type 0) : Type 0 where
  pub new_state : PositionState
  pub close_qty : F
  pub reason : Option String
  pub new_highest : Option F
  pub new_trailing_stop : Option F

-- The columns of a position row that a transition writes.
pub record PositionRow (F : Type 0) : Type 0 where
  pub state : PositionState
  pub highest_price : Option F
  pub trailing_stop_price : Option F
  pub remaining_quantity : F
  pub closed_time : Option Datetime
  pub close_reason : Option String

-- `if transition.reason: row.close_reason = transition.reason`
abbrev pub new_reason : Option String → Option String → Option String
new_reason reason old = if is_set reason then reason else old

module _ {F : Type 0} ⦃d : Double F⦄ where
  -- Nothing is closed, and the marks stay.
  hold : PositionSnapshot F → Transition F
  hold p = record {
    new_state = p.state;
    close_qty = nought;
    reason = none;
    new_highest = p.highest_price;
    new_trailing_stop = p.trailing_stop_price;
  }

  -- `position.state == "OPEN"`
  decide_open : PositionSnapshot F → F → F → F → Transition F
  decide_open p price atr mult =
      if le price p.stop_price
      then record {
        new_state = closed;
        close_qty = p.remaining_quantity;
        reason = some "stop_loss";
        new_highest = p.highest_price;
        new_trailing_stop = p.trailing_stop_price;
      }
      else (if ge price p.take_profit_price
          then record {
            new_state = half_closed;
            close_qty = div p.remaining_quantity (of_nat 2);
            reason = some "take_profit_half";
            new_highest = some price;
            new_trailing_stop = some (sub price (mul atr mult));
          }
          else record {
            new_state = open_state;
            close_qty = nought;
            reason = none;
            new_highest = p.highest_price;
            new_trailing_stop = p.trailing_stop_price;
          })

  -- `position.highest_price or current_price`: 0.0 counts as absent.
  unfoldable pub or_price : Option F → F → F
  or_price none price = price
  or_price (some h) price = if eq h nought then price else h

  -- `position.state == "HALF_CLOSED"`
  decide_half_closed : PositionSnapshot F → F → F → F → Transition F
  unfolding or_price
  decide_half_closed p price atr mult =
      let highest = max_f (or_price p.highest_price price) price in
      let trailing = sub highest (mul atr mult) in
      if le price trailing
      then record {
        new_state = closed;
        close_qty = p.remaining_quantity;
        reason = some "trailing_stop";
        new_highest = some highest;
        new_trailing_stop = some trailing;
      }
      else record {
        new_state = half_closed;
        close_qty = nought;
        reason = none;
        new_highest = some highest;
        new_trailing_stop = some trailing;
      }

  decide_at : PositionState → PositionSnapshot F → F → F → F → Transition F
  unfolding decide_open decide_half_closed hold
  decide_at open_state p price atr mult = decide_open p price atr mult
  decide_at half_closed p price atr mult = decide_half_closed p price atr mult
  decide_at closed p price atr mult = hold p
  decide_at (other s) p price atr mult = hold p

  -- `PositionStateMachine.decide`
  unfoldable pub decide : PositionSnapshot F → F → F → F → Transition F
  unfolding decide_at
  decide p price atr mult = decide_at p.state p price atr mult

  -- `if transition.new_state == "CLOSED":` with the time of closing
  stamp : Datetime → Transition F → PositionRow F → PositionRow F
  stamp now t row = elim t.new_state [
    | closed ↦ record row {
      closed_time = some now;
      close_reason = new_reason t.reason row.close_reason;
    }
    | _ ↦ row
  ]

  -- `PositionStateMachine.apply`
  unfoldable pub apply : Datetime → Transition F → PositionRow F → PositionRow F
  unfolding stamp
  apply now t row = stamp now t (record row {
    state = t.new_state;
    highest_price = t.new_highest;
    trailing_stop_price = t.new_trailing_stop;
    remaining_quantity =
        if gt t.close_qty nought
        then max_f (sub row.remaining_quantity t.close_qty) nought
        else row.remaining_quantity;
  })

  -- The snapshot that Loop A makes of a row, with the prices fixed when it was opened.
  unfoldable pub snapshot : F → F → PositionRow F → PositionSnapshot F
  snapshot stop target row = record {
    state = row.state;
    remaining_quantity = row.remaining_quantity;
    stop_price = stop;
    take_profit_price = target;
    trailing_stop_price = row.trailing_stop_price;
    highest_price = row.highest_price;
  }
