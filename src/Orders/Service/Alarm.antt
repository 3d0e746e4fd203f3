-- ===== src/Orders/Service/Alarm.antt =====
-- What holds after every run of `place_with_reconcile` that does not end in a success, when each
-- critical event makes it hold.
use haru_trade_manager.Common.{
  ◌≡◌, refl, ◌⊎◌, inl, inr, String, true, Option, none, some, Act, Outcome, Failure, ok, raised,
  pure, ◌>>=◌, ◌>>◌, After, After-bind, After-catch, Bool-cases, truthy,
}
use haru_trade_manager.Domain.{OrderRequest, OrderResult, OrderStatus}
use haru_trade_manager.Orders.Gateway.{OrderGateway, CriticalSafety}
use haru_trade_manager.Orders.Service.{
  OrderService, is_live, place_failed, try_place, on_status, status_failed, check_status, settle,
  unresolved, or_else, settle_or, attempt, place_with_reconcile,
}

module _ {F W : Type 0} (gateway : OrderGateway F W) (safety : CriticalSafety W) (H : W → Type 0)
    (alarms : (code message : String) (w : W)
      → After (λ _ w'. H w') (λ _ w'. H w') (safety.critical code message w))
    (req : OrderRequest F) where
  abbrev service : OrderService F W
  service = record { gateway = gateway; safety = some safety }

  abbrev Anything : {A : Type 0} → A → W → Type 0
  Anything _ _ = Unit

  abbrev Holds : {A : Type 0} → A → W → Type 0
  Holds _ w = H w

  -- A success, or the alarm.
  abbrev IsReported : OrderResult → W → Type 0
  IsReported r w = (r.is_ok ≡ true) ⊎ H w

  abbrev IsSettled : Option OrderResult → W → Type 0
  IsSettled none w = Unit
  IsSettled (some r) w = IsReported r w

  After-any :
      {A : Type 0} (E : Failure → W → Type 0) (r : Outcome A × W)
      → ((e : Failure) (w : W) → E e w)
      → After Anything E r
  After-any E (ok a, w) h = tt
  After-any E (raised e, w) h = h e w

  -- The alarm, and then a value.
  alarm_then :
      {A : Type 0} (P : A → W → Type 0) (code message : String) (a : A) (w : W)
      → ((w' : W) → H w' → P a w')
      → After P Holds ((safety.critical code message >> pure a) w)
  alarm_then P code message a w k =
      After-bind Holds P Holds (safety.critical code message) (λ _. pure a) w
        (alarms code message w) (λ _ w' h. k w' h)

  place_failed_lem :
      (code : String) (exc : Failure) (w : W)
      → After Anything Holds (place_failed service code req exc w)
  unfolding place_failed
  place_failed_lem code exc w = alarm_then Anything code _ _ w (λ w' k. tt)

  try_place_lem : (code : String) (w : W) → After Anything Holds (try_place service code req w)
  unfolding try_place
  try_place_lem code w =
      After-catch Anything Anything Anything Holds (gateway.place_order req)
        (place_failed service code req) w (After-any Anything _ (λ e w'. tt)) (λ r w' h. tt)
        (λ e w' h. place_failed_lem code e w')

  on_status-IsSettled :
      (id : String) (st : OrderStatus F) (w : W) → IsSettled (on_status service id st) w
  on_status-IsSettled id st w = elim (Bool-cases (is_live st)) [
    | inl live ↦ rw live (inl refl)
    | inr dead ↦ rw dead tt
  ]

  status_failed-IsSettled :
      (which id : String) (exc : Failure) (w : W)
      → After IsSettled Holds (status_failed service which req id exc w)
  unfolding status_failed
  status_failed-IsSettled which id exc w = alarm_then IsSettled _ _ _ w (λ w' k. inr k)

  check_status-IsSettled :
      (which id : String) (w : W) → After IsSettled Holds (check_status service which req id w)
  unfolding check_status
  check_status-IsSettled which id w =
      After-catch IsSettled IsSettled Anything Holds
        (do st ← gateway.get_order_status id; pure (on_status service id st))
        (status_failed service which req id) w
        (After-bind Anything IsSettled Anything (gateway.get_order_status id)
          (λ st. pure (on_status service id st)) w (After-any Anything _ (λ e w'. tt))
          (λ st w' h. on_status-IsSettled id st w'))
        (λ o w' h. h) (λ e w' h. status_failed-IsSettled which id e w')

  settle-IsSettled :
      (which : String) (id : Option String) (w : W)
      → After IsSettled Holds (settle service which req id w)
  unfolding settle
  settle-IsSettled which none w = tt
  settle-IsSettled which (some id) w = elim (Bool-cases (truthy id)) [
    | inl t ↦ rw t (check_status-IsSettled which id w)
    | inr f ↦ rw f tt
  ]

  abbrev GoesOn : (OrderResult → Act W OrderResult) → Type 0
  GoesOn go_on = (r : OrderResult) (w : W) → After IsReported Holds (go_on r w)

  or_else-IsReported :
      (go_on : OrderResult → Act W OrderResult)
      → GoesOn go_on
      → (r : OrderResult) (o : Option OrderResult) (w : W) → IsSettled o w
      → After IsReported Holds (or_else service (go_on r) o w)
  or_else-IsReported go_on rest r none w h = rest r w
  or_else-IsReported go_on rest r (some s) w h = h

  settle_or-IsReported :
      (which : String) (go_on : OrderResult → Act W OrderResult)
      → GoesOn go_on
      → (r : OrderResult) (w : W) → After IsReported Holds (settle_or service which req go_on r w)
  unfolding settle_or
  settle_or-IsReported which go_on rest r w = elim (Bool-cases r.is_ok) [
    | inl done ↦ simp done (inl refl)
    | inr refused ↦ simp refused (
        After-bind IsSettled IsReported Holds (settle service which req r.order_id)
          (or_else service (go_on r)) w (settle-IsSettled which r.order_id w)
          (or_else-IsReported go_on rest r))
  ]

  attempt-IsReported :
      (code which : String) (go_on : OrderResult → Act W OrderResult) (w : W)
      → GoesOn go_on
      → After IsReported Holds (attempt service code which req go_on w)
  unfolding attempt
  attempt-IsReported code which go_on w rest =
      After-bind Anything IsReported Holds (try_place service code req)
        (settle_or service which req go_on) w (try_place_lem code w)
        (λ r w' h. settle_or-IsReported which go_on rest r w')

  unresolved-GoesOn : (error : Option String) → GoesOn (unresolved service req error)
  unfolding unresolved
  unresolved-GoesOn error r w = alarm_then IsReported _ _ _ w (λ w' k. inr k)

  pub place_with_reconcile-IsReported :
      (w : W) → After IsReported Holds (place_with_reconcile service req w)
  unfolding place_with_reconcile
  place_with_reconcile-IsReported w =
      attempt-IsReported "order_place_exception" "first" _ w λ first w'.
        attempt-IsReported "order_retry_exception" "second" (unresolved service req first.error) w'
          (unresolved-GoesOn first.error)
