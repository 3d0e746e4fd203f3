-- ===== src/Tests/Orders.antt =====
-- Samples of app/orders and of the safety manager, with whole numbers for prices.
use haru_trade_manager.Common.{
  ℕ,
  zero,
  suc,
  ◌+◌,
  ◌≡◌,
  ◌⊎◌,
  refl,
  true,
  false,
  none,
  some,
  [],
  ok,
  raised,
  other_error,
  Int.{ℤ, pos, ◌-ℤ◌, ◌*ℤ◌},
  ℤ_double,
  ℤ-IsOrdered,
  ◌≼◌,
  nought,
  sub,
  mul,
  Ensures,
}
use haru_trade_manager.Domain.{OrderRequest, OrderResult}
use haru_trade_manager.Orders.Gateway.{OrderGateway}
use haru_trade_manager.Orders.Service.{place_with_reconcile}
use haru_trade_manager.Orders.Service.Attempts.{IsFaithful, service}
use haru_trade_manager.Orders.Service.Reconcile.{place_with_reconcile-IsFaithful}
use haru_trade_manager.Orders.Position.{
  PositionSnapshot, PositionRow, open_state, half_closed, decide, apply,
}
use haru_trade_manager.Orders.Position.Decide.{
  ◌⟶◌, IsAtStop, decide-⟶, decide-closed, decide_ratchet, apply-remaining,
}
use haru_trade_manager.Runtime.{RuntimeState, SafetyManager}
use haru_trade_manager.Runtime.Wired.{IsSuccess, wired, order_failure_halts}

abbrev sell : OrderRequest ℤ
sell = record {
  ticker = "005930";
  side = "sell";
  order_type = "market";
  qty = pos 10;
  price = none;
}

-- The first order is refused with an id, and is not found; every later one is accepted.
abbrev flaky : OrderGateway ℤ ℕ
flaky = record {
  place_order = λ req n. (ok (refuse_first n), n + 1);
  get_order_status =
      λ id n. (ok (record { exists = false; status = "not_found"; filled_qty = pos 0 }), n);
}
  where
    refuse_first : ℕ → OrderResult
    refuse_first zero = record { is_ok = false; order_id = some "A1"; error = some "rejected" }
    refuse_first (suc n) = record { is_ok = true; order_id = some "A2"; error = none }

-- Every placement raises.
abbrev down : OrderGateway ℤ ℕ
down = record {
  place_order = λ req n. (raised (record { kind = other_error; text = "timeout" }), n + 1);
  get_order_status = λ id n. (raised (record { kind = other_error; text = "timeout" }), n);
}

place_with_reconcile-IsFaithful_example :
    Ensures (IsFaithful flaky sell 0) (place_with_reconcile (service flaky sell) sell (0, []))
place_with_reconcile-IsFaithful_example = place_with_reconcile-IsFaithful flaky sell 0

abbrev running : RuntimeState
running = record {
  entry_paused = false;
  all_paused = false;
  halted = false;
  halt_reason = none;
  halted_at = none;
  pending_change = none;
}

abbrev manager : SafetyManager
manager = record { runtime = running; max_events = 2; events = [] }

order_failure_halts_example :
    let (r, (g, m)) = place_with_reconcile (wired down (λ n. n) none) sell (0, manager) in
    IsSuccess r ⊎ (m.runtime.halted ≡ true)
order_failure_halts_example = order_failure_halts down (λ n. n) none sell 0 manager

abbrev opened : PositionSnapshot ℤ
opened = record {
  state = open_state;
  remaining_quantity = pos 10;
  stop_price = pos 90;
  take_profit_price = pos 120;
  trailing_stop_price = none;
  highest_price = some (pos 100);
}

abbrev halved : PositionSnapshot ℤ
halved = record {
  state = half_closed;
  remaining_quantity = pos 5;
  stop_price = pos 90;
  take_profit_price = pos 120;
  trailing_stop_price = some (pos 117);
  highest_price = some (pos 120);
}

abbrev halved_row : PositionRow ℤ
halved_row = record {
  state = half_closed;
  highest_price = some (pos 120);
  trailing_stop_price = some (pos 117);
  remaining_quantity = pos 5;
  closed_time = none;
  close_reason = some "take_profit_half";
}

decide-⟶_example : open_state ⟶ (decide opened (pos 125) (pos 2) (pos 1)).new_state
decide-⟶_example = decide-⟶ opened (pos 125) (pos 2) (pos 1)

decide-closed_example :
    let t = decide opened (pos 80) (pos 2) (pos 1) in
    (t.close_qty ≡ pos 10)
    × ((open_state ≡ open_state) × (pos 80 ≼ pos 90) × (t.reason ≡ some "stop_loss")
        ⊎ (open_state ≡ half_closed)
          × IsAtStop (pos 80) t.new_trailing_stop
          × (t.reason ≡ some "trailing_stop"))
decide-closed_example =
    decide-closed opened (pos 80) (pos 2) (pos 1) (λ e. cc) (unfold decide in refl)

decide_ratchet_example :
    let t = decide halved (pos 130) (pos 2) (pos 1) in
    (high : ℤ) × (t.new_highest ≡ some high)
    × (pos 120 ≼ high)
    × (pos 130 ≼ high)
    × (t.new_trailing_stop ≡ some (sub high (mul (pos 2) (pos 1))))
decide_ratchet_example =
    decide_ratchet ℤ-IsOrdered halved (pos 130) (pos 2) (pos 1) (pos 120) refl refl refl refl

apply-remaining_example :
    let left = (apply 7 (decide halved (pos 130) (pos 2) (pos 1)) halved_row).remaining_quantity in
    (nought ≼ left) × (left ≼ pos 5)
unfolding ◌-ℤ◌ ◌*ℤ◌
apply-remaining_example =
    apply-remaining ℤ-IsOrdered 7 (decide halved (pos 130) (pos 2) (pos 1)) halved_row
      (unfold decide in refl) refl
