-- ===== src/Orders/Service/Reconcile.antt =====
-- `place_with_reconcile` against the monitor, over every gateway.
use mathlib.Core.Path.{subst}
use haru_trade_manager.Common.{
  ℕ, ◌+◌, arith, ap, is_set, ◌≡◌, refl, String, Option, false, [], Act, Ensures, Ensures-bind,
  Bool-cases, inl, inr,
}
use haru_trade_manager.Domain.{OrderRequest, OrderResult}
use haru_trade_manager.Orders.Gateway.{OrderGateway}
use haru_trade_manager.Orders.Service.{
  place_with_reconcile, attempt, try_place, settle_or, unresolved,
}
use haru_trade_manager.Orders.Service.Monitor.{
  after_place, blind_of, account, clear, verdict, recorder,
}
use haru_trade_manager.Orders.Service.Attempts.{
  verdict-append, retried, retried-free, retried-blind, World, service, Ends, IsFaithful, Knows,
  try_place-Knows, settle_or-Ends,
}

module _ {F G : Type 0} (gateway : OrderGateway F G) (req : OrderRequest F) where
  unresolved-Ends :
      (error : Option String) (r : OrderResult) (w : World gateway req) (n m : ℕ)
      → r.is_ok ≡ false
      → verdict w.1 ≡ account (retried r.order_id) n m
      → Ensures (Ends gateway req n m) (unresolved (service gateway req) req error r w)
  unfolding unresolved recorder
  unresolved-Ends error r (g, calls) n m refused h = elim (Bool-cases (is_set r.order_id)) [
    | inl t ↦ rw verdict-append (rw h (rw t (refl, omega arith, refl)))
    | inr f ↦ rw verdict-append (rw h (rw f (refl, omega arith, refl)))
  ]

  -- The second attempt, with the end of the method.
  second-Ends :
      (error : Option String) (id : Option String) (w : World gateway req)
      → verdict w.1 ≡ account (retried id) 1 0
      → Ensures (Ends gateway req 2 (0 + blind_of (retried id))) (
          attempt
            (service gateway req)
            "order_retry_exception"
            "second"
            req
            (unresolved (service gateway req) req error)
            w)
  unfolding attempt
  second-Ends error id (g, calls) h =
      let m = 0 + blind_of (retried id) in
      Ensures-bind (Knows gateway req 2 m (gateway.place_order req g).0) (Ends gateway req 2 m)
        (try_place (service gateway req) "order_retry_exception" req)
        (settle_or (service gateway req) "second" req (unresolved (service gateway req) req error))
        (g, calls)
        (try_place-Knows gateway req "order_retry_exception" g calls (retried id) 1 0 h
          (retried-free id))
        (λ r w' k.
          settle_or-Ends gateway req 2 m "second" (unresolved (service gateway req) req error) r w'
            2 m (omega arith) (λ _ _. refl) (λ _. refl)
            (λ refused w'' h'. unresolved-Ends error r w'' 2 m refused h') k.0)

  -- Over every gateway, in every state of it, and with a safety hook that does not raise: the method
  -- does not raise and sends at most two orders. After an order that answered with an id none is sent
  -- before a status check of that id has said that it does not stand, and only such an order is asked
  -- after. An order is sent again without a status check just where the first placement raised or was
  -- refused without an id, though that order may stand. A success names the order sent last, which
  -- stands by its placement or its status; after a failure the last one is not known to stand.
  pub place_with_reconcile-IsFaithful :
      (g : G)
      → Ensures (IsFaithful gateway req g) (place_with_reconcile (service gateway req) req (g, []))
  unfolding place_with_reconcile attempt
  place_with_reconcile-IsFaithful g =
      let a = (gateway.place_order req g).0 in
      let go_on : OrderResult → Act (World gateway req) OrderResult = λ first.
        attempt (service gateway req) "order_retry_exception" "second" req
          (λ second. unresolved (service gateway req) req first.error second) in
      Ensures-bind (Knows gateway req 1 0 a) (IsFaithful gateway req g)
        (try_place (service gateway req) "order_place_exception" req)
        (settle_or (service gateway req) "first" req go_on) (g, [])
        (try_place-Knows gateway req "order_place_exception" g [] clear 0 0 refl (λ _. refl))
        (λ r w k.
          settle_or-Ends gateway req 1 0 "first" go_on r w 2 (blind_of (after_place a))
            (omega arith)
            (λ has_id refused. subst (λ x. 0 ≡ blind_of x) k.1 (rw (refused, has_id) refl))
            (λ filled. subst (λ x. 0 ≡ blind_of x) k.1 (rw filled refl))
            (λ refused w' h.
              subst (λ m. Ensures (Ends gateway req 2 m) (go_on r w'))
                (omega (arith, retried-blind r refused, ap blind_of k.1))
                (second-Ends r.error r.order_id w' h))
            k.0)
