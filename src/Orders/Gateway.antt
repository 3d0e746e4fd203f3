-- ===== src/Orders/Gateway.antt =====
-- The Protocol classes of app/orders/service.py: what an order gateway and the safety hook offer.
-- A call changes the state `W` of the world, and may raise.
use haru_trade_manager.Common.{String, Act, Option, none, some, pure}
use haru_trade_manager.Domain.{OrderRequest, OrderResult, OrderStatus}

pub record OrderGateway (F W : Type 0) : Type 0 where
  pub place_order : OrderRequest F → Act W OrderResult
  pub get_order_status : String → Act W (OrderStatus F)

pub record CriticalSafety (W : Type 0) : Type 0 where
  pub critical : String → String → Act W (Unit {0})

-- `_critical`: nothing is called where no safety hook was given.
unfoldable pub raise_critical :
    {W : Type 0} → Option (CriticalSafety W) → String → String → Act W (Unit {0})
raise_critical none code message = pure tt
raise_critical (some safety) code message = safety.critical code message
