-- ===== src/Orders/Service/Attempts.antt =====
-- One attempt of `place_with_reconcile` against the monitor.
use text.Mathlib.TextPositions.{eq_refl}
use haru_trade_manager.Common.{
  ℕ, suc, ◌+◌, ◌≤◌, arith, ◌∙◌, true, pure, ◌>>=◌, is_set, if◌then◌else◌, ◌≡◌, refl, String, Option,
  none, some, false, List, [], ◌∷◌, ◌++◌, Outcome, Failure, ok, raised, Act, Ensures, Ensures-bind,
  Ensures-catch, After, After-map, Bool-cases, inl, inr, truthy,
}
use mathlib.Core.List.{foldl-append}
use haru_trade_manager.Domain.{OrderRequest, OrderResult, OrderStatus}
use haru_trade_manager.Orders.Gateway.{OrderGateway}
use haru_trade_manager.Orders.Service.{
  OrderService, is_live, try_place, settle, settle_or, or_else, place_failed, status_failed,
  on_status, check_status,
}
use haru_trade_manager.Orders.Service.Monitor.{
  Call, placed, checked, Watch, watch, after_place, after_check, place_from, blind_of, account,
  clear, lost, Agrees, verdict, observed, recorder, pending,
}

pub verdict-append :
    {F : Type 0} (calls : List (Call F)) (c : Call F)
    → verdict (calls ++ c ∷ []) ≡ watch (verdict calls) c
verdict-append calls c = foldl-append watch (account clear 0 0) calls (c ∷ [])

-- What is known where the method goes on after a refusal.
abbrev pub retried : Option String → Watch
retried id = if is_set id then clear else lost

pub retried-free :
    (id : Option String) (a : Outcome OrderResult) → place_from (retried id) a ≡ after_place a
retried-free id a = elim (Bool-cases (is_set id)) [ inl t ↦ rw t refl | inr f ↦ rw f refl ]

pub retried-blind :
    (r : OrderResult)
    → r.is_ok ≡ false
    → blind_of (retried r.order_id) ≡ blind_of (after_place (ok r))
retried-blind r refused = elim (Bool-cases (is_set r.order_id)) [
  | inl t ↦ rw (refused, t) refl
  | inr f ↦ rw (refused, f) refl
]

module _ {F G : Type 0} (gateway : OrderGateway F G) (req : OrderRequest F) where
  abbrev pub World : Type 0
  World = G × List (Call F)

  abbrev pub service : OrderService F World
  service = record { gateway = observed gateway; safety = some recorder }

  -- What the calls show of a result, where n orders were sent and m of them blindly.
  abbrev pub Ends : ℕ → ℕ → OrderResult → World → Type 0
  Ends n m r (g, calls) =
      Agrees r (verdict calls).now × ((verdict calls).sent ≤ n) × ((verdict calls).blind ≡ m)

  -- The calls of a run from a state of the gateway, and its result.
  abbrev pub IsFaithful : G → OrderResult → World → Type 0
  IsFaithful g = Ends 2 (blind_of (after_place (gateway.place_order req g).0))

  abbrev pub Knows : ℕ → ℕ → Outcome OrderResult → OrderResult → World → Type 0
  Knows n m a r (g, calls) =
      (verdict calls ≡ account (after_place (ok r)) n m) × (after_place (ok r) ≡ after_place a)

  abbrev IsLost : ℕ → ℕ → Outcome OrderResult → Failure → World → Type 0
  IsLost n m a _ (g, calls) = (verdict calls ≡ account lost n m) × (lost ≡ after_place a)

  place_order-Knows :
      (g : G) (calls : List (Call F)) (x : Watch) (n m : ℕ)
      → verdict calls ≡ account x n m
      → ((a : Outcome OrderResult) → place_from x a ≡ after_place a)
      → let a = (gateway.place_order req g).0 in
        After
          (Knows (suc n) (m + blind_of x) a)
          (IsLost (suc n) (m + blind_of x) a)
          (service.gateway.place_order req (g, calls))
  unfolding observed
  place_order-Knows g calls x n m h free = go (gateway.place_order req g)
    where
      go :
          (y : Outcome OrderResult × G)
          → After
              (Knows (suc n) (m + blind_of x) y.0)
              (IsLost (suc n) (m + blind_of x) y.0)
              (y.0, (y.1, calls ++ placed req y.0 ∷ []))
      go (ok r, g') = (rw verdict-append (rw h (rw (free (ok r)) refl)), refl)
      go (raised e, g') = (rw verdict-append (rw h (rw (free (raised e)) refl)), refl)

  place_failed-Knows :
      (code : String) (n m : ℕ) (a : Outcome OrderResult) (exc : Failure) (w : World)
      → IsLost n m a exc w
      → Ensures (Knows n m a) (place_failed service code req exc w)
  unfolding place_failed recorder
  place_failed-Knows code n m a exc (g, calls) k = (rw verdict-append (rw k.0 refl), k.1)

  pub try_place-Knows :
      (code : String) (g : G) (calls : List (Call F)) (x : Watch) (n m : ℕ)
      → verdict calls ≡ account x n m
      → ((a : Outcome OrderResult) → place_from x a ≡ after_place a)
      → Ensures
          (Knows (suc n) (m + blind_of x) (gateway.place_order req g).0)
          (try_place service code req (g, calls))
  unfolding try_place
  try_place-Knows code g calls x n m h free =
      let a = (gateway.place_order req g).0 in
      let k = Knows (suc n) (m + blind_of x) a in
      Ensures-catch k k (IsLost (suc n) (m + blind_of x) a) (service.gateway.place_order req)
        (place_failed service code req) (g, calls) (place_order-Knows g calls x n m h free)
        (λ r w' t. t) (place_failed-Knows code (suc n) (m + blind_of x) a)

  -- An order with an id that was refused, and n and m as above.
  module _ (n m : ℕ) where
    abbrev IsAsked : String → World → Type 0
    IsAsked id (g, calls) = verdict calls ≡ account (pending (some id)) n m

    abbrev IsSettled : Option String → Option OrderResult → World → Type 0
    IsSettled id none (g, calls) = verdict calls ≡ account (retried id) n m
    IsSettled id (some r) (g, calls) =
        (is_set id ≡ true)
        × Agrees r (verdict calls).now
        × ((verdict calls).sent ≡ n)
        × ((verdict calls).blind ≡ m)

    abbrev IsAnswered : String → OrderStatus F → World → Type 0
    IsAnswered id st (g, calls) = verdict calls ≡ account (after_check id (ok st)) n m

    get_order_status-Settles :
        (id : String) (g : G) (calls : List (Call F))
        → IsAsked id (g, calls)
        → After (IsAnswered id) (λ _. IsAsked id) (service.gateway.get_order_status id (g, calls))
    unfolding observed
    get_order_status-Settles id g calls h = go (gateway.get_order_status id g)
      where
        go :
            (x : Outcome (OrderStatus F) × G)
            → After (IsAnswered id) (λ _. IsAsked id) (x.0, (x.1, calls ++ checked id x.0 ∷ []))
        go (ok r, g') = rw verdict-append (rw (h, eq_refl id) refl)
        go (raised e, g') = rw verdict-append (rw (h, eq_refl id) refl)

    on_status-IsSettled :
        (id : String) (st : OrderStatus F) (w : World)
        → truthy id ≡ true
        → IsAnswered id st w
        → IsSettled (some id) (on_status service id st) w
    on_status-IsSettled id st (g, calls) t k = elim (Bool-cases (is_live st)) [
      | inl live ↦ rw live (rw (rw live at k) (t, (refl, refl), refl, refl))
      | inr dead ↦ rw (dead, t) (rw dead at k)
    ]

    status_failed-IsSettled :
        (which id : String) (exc : Failure) (w : World)
        → truthy id ≡ true
        → IsAsked id w
        → Ensures (IsSettled (some id)) (status_failed service which req id exc w)
    unfolding status_failed recorder
    status_failed-IsSettled which id exc (g, calls) t k =
        rw verdict-append (rw k (t, refl, refl, refl))

    check_status-IsSettled :
        (which id : String) (w : World)
        → truthy id ≡ true
        → IsAsked id w
        → Ensures (IsSettled (some id)) (check_status service which req id w)
    unfolding check_status
    check_status-IsSettled which id (g, calls) t k =
        Ensures-catch (IsSettled (some id)) (IsSettled (some id)) (λ _. IsAsked id)
          (do st ← service.gateway.get_order_status id; pure (on_status service id st))
          (status_failed service which req id) (g, calls)
          (After-map (IsAnswered id) (IsSettled (some id)) (λ _. IsAsked id)
            (service.gateway.get_order_status id) (on_status service id) (g, calls)
            (get_order_status-Settles id g calls k) (λ st w'. on_status-IsSettled id st w' t))
          (λ o w' h. h) (λ e w'. status_failed-IsSettled which id e w' t)

    settle-IsSettled :
        (which : String) (r : OrderResult) (w : World)
        → r.is_ok ≡ false
        → verdict w.1 ≡ account (after_place (ok r)) n m
        → Ensures (IsSettled r.order_id) (settle service which req r.order_id w)
    unfolding settle
    settle-IsSettled which r (g, calls) refused k = go r.order_id (rw refused at k)
      where
        go :
            (id : Option String)
            → verdict calls ≡ account (if is_set id then pending id else lost) n m
            → Ensures (IsSettled id) (settle service which req id (g, calls))
        go none h = h
        go (some id) h = elim (Bool-cases (truthy id)) [
          | inl t ↦ rw t (check_status-IsSettled which id (g, calls) t (rw t at h))
          | inr f ↦
              let same : verdict calls ≡ account (if truthy id then clear else lost) n m =
                rw f (rw f at h) in
              rw f same
        ]

    -- With the rest of the method: it is run only where the order does not stand or is lost.
    pub settle_or-Ends :
        (which : String) (go_on : OrderResult → Act World OrderResult) (r : OrderResult) (w : World)
        (n' m' : ℕ)
        → n ≤ n'
        → (is_set r.order_id ≡ true → r.is_ok ≡ false → m ≡ m')
        → (r.is_ok ≡ true → m ≡ m')
        → (r.is_ok ≡ false
            → (w' : World) → verdict w'.1 ≡ account (retried r.order_id) n m
            → Ensures (Ends n' m') (go_on r w'))
        → verdict w.1 ≡ account (after_place (ok r)) n m
        → Ensures (Ends n' m') (settle_or service which req go_on r w)
    unfolding settle_or
    settle_or-Ends which go_on r w n' m' few asked done rest k = elim (Bool-cases r.is_ok) [
      | inl filled ↦ simp filled (rw k (rw filled ((refl, refl), few, done filled)))
      | inr refused ↦ simp refused (
          Ensures-bind (IsSettled r.order_id) (Ends n' m') (settle service which req r.order_id)
            (or_else service (go_on r)) w (settle-IsSettled which r w refused k)
            (or_else_lem refused))
    ]
      where
        or_else_lem :
            r.is_ok ≡ false
            → (o : Option OrderResult) (w' : World) → IsSettled r.order_id o w'
            → Ensures (Ends n' m') (or_else service (go_on r) o w')
        or_else_lem refused none w' h = rest refused w' h
        or_else_lem refused (some s) (g, calls) (has_id, agrees, sent, blind) =
            (agrees, omega (arith, few, sent), blind ∙ asked has_id refused)
