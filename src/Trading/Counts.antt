-- ===== src/Trading/Counts.antt =====
-- The counts that a round of monitoring reports.
use haru_trade_manager.Common.{
  ◌||◌, ℕ, ◌+◌, ◌≤◌, ◌≡◌, Bool, true, false, List, length, Outcome, ok, raised, ◌>>=◌, ◌>>◌, Double,
}
use haru_trade_manager.Trading.{Desk, Position}
use haru_trade_manager.Trading.Monitor.{LoopA, Counts}
use haru_trade_manager.Trading.Cycle.{open_among}
use haru_trade_manager.Trading.Steps.{IsStep}

module _ {F G : Type 0} ⦃d : Double F⦄ (loop : LoopA F G) where
  -- With a session nothing is counted yet, without one the position is counted.
  abbrev IsOpened : Counts → Bool × Counts → Type 0
  IsOpened c (true, c') = c' ≡ c
  IsOpened c (false, c') = IsStep c c'

  -- Each of n positions was counted.
  abbrev IsCountOf : ℕ → Counts → Counts → Type 0
  IsCountOf n c c' =
      (c'.monitored_positions ≡ c.monitored_positions + n)
      × (c'.closed_positions + c'.failed_close_orders
          ≤ c.closed_positions + c.failed_close_orders + n)

  abbrev pub is_raised : {A : Type 0} → Outcome A → Bool
  is_raised (ok _) = false
  is_raised (raised _) = true

  -- The session, or the query that follows it, raises.
  abbrev pub query_fails : G → Bool
  query_fails g = let (r, g') = loop.db.connect g in is_raised r || is_raised (loop.db.select g').0

  -- How many positions a round has to look at, by whether its query fails.
  abbrev pub to_monitor : Bool → List (Position F) → ℕ
  to_monitor true positions = 0
  to_monitor false positions = length (open_among positions)

  abbrev IsAnswer : Bool → Desk F → List (Position F) → Type 0
  IsAnswer fails desk rows = length rows ≡ to_monitor fails desk.positions
