-- ===== src/Tests/Schedule.antt =====
-- Samples of the market schedule.
use haru_trade_manager.Common.{◌≡◌, refl, [], ◌∷◌, All, show, fstring}
use haru_trade_manager.Schedule.{Clock, due_timeframes, slot_key, pad2}
use haru_trade_manager.Schedule.Slots.{IsDue, due_timeframes-IsDue}

abbrev half_past_nine : Clock
half_past_nine = record { date = "2026-01-05"; hour = 9; minute = 30 }

due_timeframes-IsDue_example : All (IsDue half_past_nine) (due_timeframes half_past_nine)
due_timeframes-IsDue_example = due_timeframes-IsDue half_past_nine

due_half_past_nine : due_timeframes half_past_nine ≡ "3m" ∷ "5m" ∷ "15m" ∷ []
unfolding due_timeframes
due_half_past_nine = refl

slot_half_past_nine : slot_key half_past_nine "15m" ≡ "2026-01-05 09:30"
unfolding slot_key pad2 show fstring
slot_half_past_nine = refl
