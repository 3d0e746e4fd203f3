-- ===== src/Orders/Service/Monitor.antt =====
-- What a caller of the gateway may do, as an automaton over the calls and their answers, and a
-- gateway and a safety hook that write the calls down.
use haru_trade_manager.Common.{
  ℕ, suc, ◌+◌, ◌≡◌, String, Option, some, true, false, List, [], ◌∷◌, ◌++◌, Outcome, ok, raised,
  is_set, if◌then◌else◌,
}
use text.Mathlib.Text.{◌==◌ as str_eq}
use mathlib.Core.List.{foldl}
use haru_trade_manager.Domain.{OrderRequest, OrderResult, OrderStatus}
use haru_trade_manager.Orders.Gateway.{OrderGateway, CriticalSafety}
use haru_trade_manager.Orders.Service.{is_live}

-- One call of the world outside, with its answer.
pub data Call (F : Type 0) : Type 0 where
  placed : OrderRequest F → Outcome OrderResult → Call F
  checked : String → Outcome (OrderStatus F) → Call F
  alarmed : String → Call F

-- What is known of the order that was sent last, if any: there is none, or it was asked after and does
-- not stand; it may stand, but its placement raised or was refused without an id, so that nothing can
-- be asked after; the order of this id may stand; the order of this id stands; a rule was broken.
pub data Watch : Type 0 where
  clear : Watch
  lost : Watch
  pending : Option String → Watch
  standing : Option String → Watch
  broken : Watch

-- The answer to a placement.
abbrev pub after_place : Outcome OrderResult → Watch
after_place (raised _) = lost
after_place (ok r) =
    if r.is_ok
    then standing r.order_id
    else (if is_set r.order_id then pending r.order_id else lost)

abbrev pub after_check : {F : Type 0} → String → Outcome (OrderStatus F) → Watch
after_check id (raised _) = pending (some id)
after_check id (ok st) = if is_live st then standing (some id) else clear

-- An order is sent only where the last one does not stand, or is lost.
abbrev pub place_from : Watch → Outcome OrderResult → Watch
place_from clear answer = after_place answer
place_from lost answer = after_place answer
place_from _ answer = broken

-- Only an order that may stand is asked after.
abbrev pub check_from : {F : Type 0} → Watch → String → Outcome (OrderStatus F) → Watch
check_from (pending (some p)) id answer = if str_eq p id then after_check id answer else broken
check_from _ id answer = broken

-- An order that is sent over a lost one is sent blindly: the lost one may stand.
abbrev pub blind_of : Watch → ℕ
blind_of lost = 1
blind_of _ = 0

-- The last order, how many were sent, and how many of them blindly.
pub record Account : Type 0 where
  pub now : Watch
  pub sent : ℕ
  pub blind : ℕ

abbrev pub account : Watch → ℕ → ℕ → Account
account now sent blind = record { now = now; sent = sent; blind = blind }

abbrev pub watch : {F : Type 0} → Account → Call F → Account
watch s (placed _ answer) =
    account (place_from s.now answer) (suc s.sent) (s.blind + blind_of s.now)
watch s (checked id answer) = account (check_from s.now id answer) s.sent s.blind
watch s (alarmed _) = s

abbrev pub verdict : {F : Type 0} → List (Call F) → Account
verdict = foldl watch (account clear 0 0)

-- The result of a run against what its calls show: a success names the order that stands, and
-- after a failure no order is known to stand.
abbrev pub Agrees : OrderResult → Watch → Type 0
Agrees r (standing id) = (r.is_ok ≡ true) × (r.order_id ≡ id)
Agrees r broken = ⊥
Agrees r _ = r.is_ok ≡ false

module _ {F G : Type 0} where
  -- The gateway, with its calls written behind the earlier ones.
  unfoldable pub observed : OrderGateway F G → OrderGateway F (G × List (Call F))
  observed gateway = record {
    place_order = λ req (g, calls).
        let (r, g') = gateway.place_order req g in (r, (g', calls ++ placed req r ∷ []));
    get_order_status = λ id (g, calls).
        let (r, g') = gateway.get_order_status id g in (r, (g', calls ++ checked id r ∷ []));
  }

  -- A safety hook that does not raise, and writes the code of each event.
  unfoldable pub recorder : CriticalSafety (G × List (Call F))
  recorder = record {
    critical = λ code message (g, calls). (ok tt, (g, calls ++ alarmed code ∷ []));
  }
