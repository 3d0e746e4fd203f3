-- ===== src/Orders/Service.antt =====
-- app/orders/service.py, `OrderService`: an order is placed, and after a refusal with an id its status is
-- asked before it is placed once more.
pub mod Monitor
pub mod Attempts
pub mod Reconcile
pub mod Alarm
use haru_trade_manager.Common.{
  String, Option, none, some, Bool, true, false, ◌&&◌, [], ◌∷◌, Act, Failure, ok, raised, pure,
  catch, ◌>>=◌, ◌>>◌, if◌then◌else◌, fstring, truthy, or_text, member,
}
use haru_trade_manager.Domain.{OrderRequest, OrderResult, OrderStatus}
use haru_trade_manager.Orders.Gateway.{OrderGateway, CriticalSafety, raise_critical}

pub record OrderService (F W : Type 0) : Type 0 where
  pub gateway : OrderGateway F W
  pub safety : Option (CriticalSafety W)

-- `st.exists and st.status in {"accepted", "partial", "filled"}`
unfoldable pub is_live : {F : Type 0} → OrderStatus F → Bool
is_live st = st.exists && member st.status ("accepted" ∷ "partial" ∷ "filled" ∷ [])

abbrev failed : Option String → String → OrderResult
failed order_id error = record { is_ok = false; order_id = order_id; error = some error }

module _ {F W : Type 0} (service : OrderService F W) where
  -- `except` of a placement: the alarm, and the result that stands for the exception
  place_failed : String → OrderRequest F → Failure → Act W OrderResult
  unfolding raise_critical
  place_failed code req exc = do
    raise_critical service.safety code
        (fstring (req.ticker ∷ " " ∷ req.side ∷ ": " ∷ exc.text ∷ []))
    pure (failed none exc.text)

  -- `try: gateway.place_order(req)`
  pub try_place : String → OrderRequest F → Act W OrderResult
  unfolding place_failed
  try_place code req = catch (service.gateway.place_order req) (place_failed code req)

  -- What the status answers: an order that is live is a success, else the code goes on (`none`).
  abbrev on_status : String → OrderStatus F → Option OrderResult
  on_status id st =
      if is_live st then some (record { is_ok = true; order_id = some id; error = none }) else none

  -- `except` of a status check: the alarm, and the end of the method
  status_failed : String → OrderRequest F → String → Failure → Act W (Option OrderResult)
  unfolding raise_critical
  status_failed which req id exc = do
    raise_critical service.safety "order_status_check_failed"
        (fstring (req.ticker ∷ " " ∷ which ∷ " order_id=" ∷ id ∷ ": " ∷ exc.text ∷ []))
    pure (some (failed (some id) "status_check_failed"))

  -- `try: gateway.get_order_status(id)`
  check_status : String → OrderRequest F → String → Act W (Option OrderResult)
  unfolding status_failed
  check_status which req id =
      catch (do st ← service.gateway.get_order_status id; pure (on_status id st))
        (status_failed which req id)

  -- `if result.order_id:` with the status check under it
  settle : String → OrderRequest F → Option String → Act W (Option OrderResult)
  unfolding check_status
  settle which req none = pure none
  settle which req (some id) = if truthy id then check_status which req id else pure none

  -- The end of the method, where the second attempt is not settled either.
  unresolved : OrderRequest F → Option String → OrderResult → Act W OrderResult
  unfolding raise_critical
  unresolved req first_error second = do
    raise_critical service.safety "order_unresolved"
        (fstring (req.ticker ∷ " " ∷ req.side ∷ " unresolved after reconcile" ∷ []))
    pure (record {
      is_ok = false;
      order_id = second.order_id;
      error = or_text second.error (or_text first_error (some "unresolved"));
    })

  -- A settled order is the result, else `rest` runs.
  abbrev or_else : Act W OrderResult → Option OrderResult → Act W OrderResult
  or_else rest (some r) = pure r
  or_else rest none = rest

  -- What both attempts do: place, and if that is refused settle the order by its status.
  -- `go_on` is the rest of the method.
  pub settle_or :
      String → OrderRequest F → (OrderResult → Act W OrderResult) → OrderResult → Act W OrderResult
  unfolding settle
  settle_or which req go_on placed =
      if placed.is_ok
      then pure placed
      else (settle which req placed.order_id >>= or_else (go_on placed))

  attempt : String → String → OrderRequest F → (OrderResult → Act W OrderResult) → Act W OrderResult
  unfolding try_place settle_or
  attempt code which req go_on = try_place code req >>= settle_or which req go_on

  unfoldable pub place_with_reconcile : OrderRequest F → Act W OrderResult
  unfolding attempt unresolved
  place_with_reconcile req = attempt "order_place_exception" "first" req λ first.
      attempt "order_retry_exception" "second" req λ second. unresolved req first.error second
