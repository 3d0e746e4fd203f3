-- ===== src/Runtime/Events.antt =====
-- The log of critical events, and what an event leaves behind.
use haru_trade_manager.Common.{
  ℕ, ◌≤◌, ◌≡◌, refl, String, true, Option, none, some, List, [], ◌∷◌, arith, length, length-append,
}
use haru_trade_manager.Domain.{Datetime}
use haru_trade_manager.Runtime.{
  RuntimeEvent, SafetyManager, AlertSink, push_event, register, safety_hook,
}

length-push_event :
    (n : ℕ) (e : RuntimeEvent) (es : List RuntimeEvent)
    → length es ≤ n
    → length (push_event n e es) ≤ n
unfolding push_event
length-push_event n e [] h = ground arith
length-push_event n e (x ∷ xs) h = ground (arith, length-append xs (e ∷ []))

-- The log of events never grows past its limit.
pub register-length :
    (code message : String) (now : Datetime) (m : SafetyManager)
    → length m.events ≤ m.max_events
    → length (register code message now m).events ≤ m.max_events
unfolding register
register-length code message now m h = length-push_event m.max_events _ m.events h

-- A critical event halts the runtime, whether or not the alert can be sent.
pub critical-halts :
    {G : Type 0} (clock : G → Datetime) (sink : Option (AlertSink G)) (code message : String)
    (w : G × SafetyManager)
    → let (r, (g, m)) = (safety_hook clock sink).critical code message w in m.runtime.halted ≡ true
unfolding safety_hook
critical-halts clock none code message (g, m) = refl
critical-halts clock (some sink) code message (g, m) = refl
