-- ===== src/LoopB/Candles.antt =====
-- app/repositories/candle.py over the table of app/db/models/candle.py: the incremental write of one
-- bar, and the queries that loop B makes. Rows stand in the order of their insertion.
use text.Mathlib.Text.{◌==◌ as str_eq}
use text.Mathlib.TextEquality.{eq_iff}
use haru_trade_manager.Common.{
  ◌≡◌, refl, arith, ℕ, ◌-◌, String, Bool, ◌&&◌, Option, none, some, List, [], ◌∷◌, if◌then◌else◌,
  ◌==◌, leb, length, drop,
}
use haru_trade_manager.Domain.{Datetime, Candle}

pub record CandleRow (F : Type 0) : Type 0 where
  pub ticker : String
  pub timeframe : String
  pub bar : Candle F

abbrev pub later : Datetime → Option Datetime → Option Datetime
later t none = some t
later t (some u) = if leb u t then some t else some u

module _ {F : Type 0} where
  -- `CandleRow.ticker == ticker, CandleRow.timeframe == timeframe`
  abbrev pub is_series : String → String → CandleRow F → Bool
  is_series ticker timeframe row = str_eq row.ticker ticker && str_eq row.timeframe timeframe

  -- The key of the unique constraint.
  abbrev pub is_bar : String → String → Datetime → CandleRow F → Bool
  is_bar ticker timeframe time row = is_series ticker timeframe row && row.bar.ts == time

  -- `upsert_incremental`: a row that is there gets the new prices, else one is added.
  unfoldable pub upsert_incremental :
      String → String → Candle F → List (CandleRow F) → List (CandleRow F)
  upsert_incremental ticker timeframe candle [] =
      record { ticker = ticker; timeframe = timeframe; bar = candle } ∷ []
  upsert_incremental ticker timeframe candle (row ∷ rows) =
      let rest = upsert_incremental ticker timeframe candle rows in
      if is_bar ticker timeframe candle.ts row
      then record row { bar = candle } ∷ rows
      else row ∷ rest

  -- `db.scalar(select(CandleRow).where(…))`
  unfoldable pub find_bar : String → String → Datetime → List (CandleRow F) → Option (Candle F)
  find_bar ticker timeframe time [] = none
  find_bar ticker timeframe time (row ∷ rows) =
      let rest = find_bar ticker timeframe time rows in
      if is_bar ticker timeframe time row then some row.bar else rest

  unfoldable pub series : String → String → List (CandleRow F) → List (Candle F)
  series ticker timeframe [] = []
  series ticker timeframe (row ∷ rows) =
      let rest = series ticker timeframe rows in
      if is_series ticker timeframe row then row.bar ∷ rest else rest

  abbrev pub latest : List (Candle F) → Option Datetime
  latest [] = none
  latest (c ∷ candles) = later c.ts (latest candles)

  -- `get_last_candle_time`
  unfoldable pub get_last_candle_time : String → String → List (CandleRow F) → Option Datetime
  unfolding series
  get_last_candle_time ticker timeframe rows = latest (series ticker timeframe rows)

  unfoldable pub insert_by_time : Candle F → List (Candle F) → List (Candle F)
  insert_by_time c [] = c ∷ []
  insert_by_time c (b ∷ candles) =
      let rest = insert_by_time c candles in if leb c.ts b.ts then c ∷ b ∷ candles else b ∷ rest

  -- By their time, the oldest first.
  unfoldable pub by_time : List (Candle F) → List (Candle F)
  unfolding insert_by_time
  by_time [] = []
  by_time (c ∷ candles) = insert_by_time c (by_time candles)

  -- `list_recent`: the last `limit` bars of a series; the times of a series differ.
  unfoldable pub list_recent : String → String → ℕ → List (CandleRow F) → List (Candle F)
  unfolding series by_time
  list_recent ticker timeframe limit rows =
      let bars = by_time (series ticker timeframe rows) in drop (length bars - limit) bars

  -- A bar that is written is found under its ticker, time frame and time as it was written, and the
  -- bars of other keys are found as before.
  pub find_bar-upsert_incremental :
      (ticker timeframe : String) (candle : Candle F) (rows : List (CandleRow F))
      (ticker' timeframe' : String) (time : Datetime)
      → find_bar ticker' timeframe' time (upsert_incremental ticker timeframe candle rows) ≡ (
          if str_eq ticker ticker' && str_eq timeframe timeframe' && candle.ts == time
          then some candle
          else find_bar ticker' timeframe' time rows)
  unfolding find_bar upsert_incremental
  find_bar-upsert_incremental ticker timeframe candle [] ticker' timeframe' time = refl
  find_bar-upsert_incremental ticker timeframe candle (row ∷ rows) ticker' timeframe' time =
      let on_ticker = eq_iff row.ticker in
      let on_timeframe = eq_iff row.timeframe in
      ground (
        arith,
        on_ticker ticker,
        on_ticker ticker',
        on_timeframe timeframe,
        on_timeframe timeframe',
        eq_iff ticker ticker',
        eq_iff timeframe timeframe',
        find_bar-upsert_incremental ticker timeframe candle rows ticker' timeframe' time,
      )
