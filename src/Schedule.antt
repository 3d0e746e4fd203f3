-- ===== src/Schedule.antt =====
-- `MarketSchedule` of app/loops/loop_b_runtime.py: which bars have just ended, and the slot that
-- each of them is processed under. The calendar date is the text that `strftime` gives.
pub mod Slots
use text.Mathlib.Text.{◌==◌ as str_eq}
use haru_trade_manager.Common.{
  ℕ, ◌+◌, ◌*◌, ◌/◌, ◌%◌, String, Bool, true, false, ◌&&◌, ◌||◌, List, [], ◌∷◌, ◌++◌, ◌==◌, ltb, leb,
  if◌then◌else◌, fstring, show,
}

-- A time in the market's time zone.
pub record Clock : Type 0 where
  pub date : String
  pub hour : ℕ
  pub minute : ℕ

-- `f"{n:02d}"`
unfoldable pub pad2 : ℕ → String
unfolding show
pad2 n = if ltb n 10 then fstring ("0" ∷ show n ∷ []) else show n

-- The auctions before the opening and before the close.
unfoldable pub is_auction : Clock → Bool
is_auction c =
    (c.hour == 8 && leb 30 c.minute && ltb c.minute 60)
    || (c.hour == 15 && leb 20 c.minute && ltb c.minute 30)

unfoldable pub is_outside : Clock → Bool
is_outside c =
    let total_minutes = c.hour * 60 + c.minute in ltb total_minutes 480 || ltb 1200 total_minutes

-- `if test: due.append(timeframe)`
abbrev pub when : Bool → String → List String
when true timeframe = timeframe ∷ []
when false timeframe = []

unfoldable pub due_timeframes : Clock → List String
unfolding is_auction is_outside
due_timeframes c =
    if is_auction c
    then []
    else (if is_outside c
        then []
        else when (c.minute % 3 == 0) "3m"
          ++ when (c.minute % 5 == 0) "5m"
          ++ when (c.minute % 15 == 0) "15m"
          ++ when (c.minute == 0) "60m"
          ++ when (c.hour == 15 && c.minute == 30) "1d")

-- `now.strftime("%Y-%m-%d %H:") + f"{minute:02d}"`
abbrev pub at_minute : Clock → ℕ → String
at_minute c minute = fstring (c.date ∷ " " ∷ pad2 c.hour ∷ ":" ∷ pad2 minute ∷ [])

unfoldable pub slot_key : Clock → String → String
unfolding pad2
slot_key c timeframe =
    if str_eq timeframe "1d"
    then c.date
    else (if str_eq timeframe "60m"
        then fstring (c.date ∷ " " ∷ pad2 c.hour ∷ ":00" ∷ [])
        else (if str_eq timeframe "15m"
            then at_minute c ((c.minute / 15) * 15)
            else (if str_eq timeframe "3m"
                then at_minute c ((c.minute / 3) * 3)
                else at_minute c ((c.minute / 5) * 5))))
