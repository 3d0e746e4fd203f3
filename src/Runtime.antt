-- ===== src/Runtime.antt =====
-- app/services/runtime_state.py and app/services/runtime_safety.py: the pause flags, and the
-- manager that halts the runtime on a critical event.
pub mod Events
pub mod Wired
use mathlib.Core.List.{foldl}
use haru_trade_manager.Common.{
  ℕ, ◌-◌, ◌+◌, String, Bool, true, false, Option, none, some, List, [], ◌∷◌, ◌++◌, Act, Outcome, ok,
  raised, pure, ◌>>=◌, ◌>>◌, if◌then◌else◌, ltb, length, drop, fstring,
}
use haru_trade_manager.Domain.{Datetime}
use haru_trade_manager.Orders.Gateway.{CriticalSafety}

pub record PendingConfigChange : Type 0 where
  pub key : String
  pub value : String
  pub changed_by : String

pub record RuntimeState : Type 0 where
  pub entry_paused : Bool
  pub all_paused : Bool
  pub halted : Bool
  pub halt_reason : Option String
  pub halted_at : Option Datetime
  pub pending_change : Option PendingConfigChange

unfoldable pub pause_entry : RuntimeState → RuntimeState
pause_entry s = record s { entry_paused = true; all_paused = false }

unfoldable pub pause_all : RuntimeState → RuntimeState
pause_all s = record s { entry_paused = true; all_paused = true }

unfoldable pub halt : String → Datetime → RuntimeState → RuntimeState
unfolding pause_all
halt reason now s = record (pause_all s) {
  halted = true;
  halt_reason = some reason;
  halted_at = some now;
}

unfoldable pub resume : RuntimeState → RuntimeState
resume s = record s { entry_paused = false; all_paused = false; halted = false; halt_reason = none }

pub record RuntimeEvent : Type 0 where
  pub level : String
  pub code : String
  pub message : String
  pub created_at : Datetime

-- The Protocol class `AlertSink`.
pub record AlertSink (W : Type 0) : Type 0 where
  pub send_message : String → Act W Bool

pub record SafetyManager : Type 0 where
  pub runtime : RuntimeState
  pub max_events : ℕ
  pub events : List RuntimeEvent

-- `self._events.append(event)`, and `pop(0)` where there are too many
unfoldable pub push_event : ℕ → RuntimeEvent → List RuntimeEvent → List RuntimeEvent
push_event max_events e events =
    let longer = events ++ e ∷ [] in
    if ltb max_events (length longer) then drop 1 longer else longer

-- `critical` up to the alert.
unfoldable pub register : String → String → Datetime → SafetyManager → SafetyManager
unfolding push_event halt
register code message now m = record m {
  events =
      push_event m.max_events
        (record { level = "CRITICAL"; code = code; message = message; created_at = now }) m.events;
  runtime = halt (fstring (code ∷ ": " ∷ message ∷ [])) now m.runtime;
}

-- `self._events[-limit:]`, for a limit that is above 0
unfoldable pub latest_events : ℕ → SafetyManager → List RuntimeEvent
latest_events limit m = drop (length m.events - limit) m.events

module _ {G : Type 0} where
  -- `RuntimeSafetyManager.critical`, over a world beside the manager. The alert sink does not touch
  -- the manager; where it raises, so does the call, and the halt stays.
  unfoldable pub critical :
      (G → Datetime) → Option (AlertSink G) → String → String → Act (G × SafetyManager) (Unit {0})
  unfolding register
  critical clock none code message (g, m) = (ok tt, (g, register code message (clock g) m))
  critical clock (some sink) code message (g, m) =
      let (r, g') = sink.send_message (fstring ("[치명 장애] " ∷ code ∷ ": " ∷ message ∷ [])) g in
      (elim r [ ok _ ↦ ok tt | raised e ↦ raised e ], (g', register code message (clock g) m))

  -- The manager as the safety hook of the other services.
  unfoldable pub safety_hook :
      (G → Datetime) → Option (AlertSink G) → CriticalSafety (G × SafetyManager)
  unfolding critical
  safety_hook clock sink = record { critical = critical clock sink }

  -- A call of the world outside, which does not touch the manager.
  abbrev pub beside : {A M : Type 0} → Act G A → Act (G × M) A
  beside act (g, m) = let (r, g') = act g in (r, (g', m))
