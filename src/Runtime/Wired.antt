-- ===== src/Runtime/Wired.antt =====
-- The safety manager behind the order service, as `build_runtime_bundle` wires them
-- (app/services/runtime_factory.py).
use haru_trade_manager.Common.{
  ◌≡◌, ◌⊎◌, inr, String, true, Option, some, Outcome, ok, raised, After,
}
use haru_trade_manager.Domain.{Datetime, OrderRequest, OrderResult}
use haru_trade_manager.Orders.Gateway.{OrderGateway}
use haru_trade_manager.Orders.Service.{OrderService, place_with_reconcile}
use haru_trade_manager.Orders.Service.Alarm.{place_with_reconcile-IsReported}
use haru_trade_manager.Runtime.{SafetyManager, AlertSink, safety_hook, beside}
use haru_trade_manager.Runtime.Events.{critical-halts}

abbrev pub IsSuccess : Outcome OrderResult → Type 0
IsSuccess (ok r) = r.is_ok ≡ true
IsSuccess (raised _) = ⊥

module _ {F G : Type 0} (gateway : OrderGateway F G) (clock : G → Datetime)
    (sink : Option (AlertSink G)) where
  abbrev pub wired_gateway : OrderGateway F (G × SafetyManager)
  wired_gateway = record {
    place_order = λ req. beside (gateway.place_order req);
    get_order_status = λ id. beside (gateway.get_order_status id);
  }

  abbrev pub wired : OrderService F (G × SafetyManager)
  wired = record { gateway = wired_gateway; safety = some (safety_hook clock sink) }

  abbrev IsHalted : G × SafetyManager → Type 0
  IsHalted (g, m) = m.runtime.halted ≡ true

  safety_hook-IsHalted :
      (code message : String) (w : G × SafetyManager)
      → After
          (λ _ w'. IsHalted w')
          (λ _ w'. IsHalted w')
          ((safety_hook clock sink).critical code message w)
  safety_hook-IsHalted code message w =
      go ((safety_hook clock sink).critical code message w)
        (critical-halts clock sink code message w)
    where
      go :
          (r : Outcome (Unit {0}) × (G × SafetyManager))
          → IsHalted r.1
          → After (λ _ w'. IsHalted w') (λ _ w'. IsHalted w') r
      go (ok _, w') h = h
      go (raised _, w') h = h

  -- Whatever the gateway answers or raises, and whether or not the alert can be sent: an order that
  -- is not placed in the end leaves the runtime halted.
  pub order_failure_halts :
      (req : OrderRequest F) (g : G) (m : SafetyManager)
      → let (r, (g', m')) = place_with_reconcile wired req (g, m) in
        IsSuccess r ⊎ (m'.runtime.halted ≡ true)
  order_failure_halts req g m = go (place_with_reconcile wired req (g, m)) (
      place_with_reconcile-IsReported wired_gateway (safety_hook clock sink) IsHalted
        safety_hook-IsHalted req (g, m))
    where
      go :
          (r : Outcome OrderResult × (G × SafetyManager))
          → After (λ res w. (res.is_ok ≡ true) ⊎ IsHalted w) (λ _ w. IsHalted w) r
          → IsSuccess r.0 ⊎ IsHalted r.1
      go (ok res, w) h = h
      go (raised e, w) h = inr h
