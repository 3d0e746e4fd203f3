-- ===== src/LoopB/Batch.antt =====
-- `upsert_batch` and `list_range` of app/repositories/candle.py, and the batch against writing its bars
-- one by one.
use haru_trade_manager.Common.{
  ◌≡◌, refl, ap, ◌∙◌, arith, ℕ, suc, ◌+◌, String, Bool, true, false, ◌&&◌, ◌||◌, Option, List, [],
  ◌∷◌, ◌++◌, Act, ok, pure, ◌>>=◌, ◌>>◌, if◌then◌else◌, ◌==◌, length, any, max, page_by, filter,
  All, After,
}
use haru_trade_manager.Domain.{Datetime, Candle}
use haru_trade_manager.Runtime.{beside}
use haru_trade_manager.Paper.{Connection, read, since, until, Steady.{read-After, beside-After}}
use haru_trade_manager.LoopB.Candles.{CandleRow, is_bar, upsert_incremental, series}

abbrev pub count_bar : Bool → ℕ × ℕ → ℕ × ℕ
count_bar true (inserted, updated) = (inserted, suc updated)
count_bar false (inserted, updated) = (suc inserted, updated)

module _ {F : Type 0} (ticker timeframe : String) where
  -- `list_range`
  unfoldable pub list_range :
      Option Datetime → Option Datetime → ℕ → ℕ → List (CandleRow F) → List (Candle F)
  list_range start end offset limit rows =
      page_by (λ x. x.ts) offset (max 1 limit)
        (filter (λ x. since start x.ts && until end x.ts) (series ticker timeframe rows))

  -- `existing_map`, as the times that are in it
  abbrev pub is_present : List (CandleRow F) → Datetime → Bool
  is_present rows time = any (is_bar ticker timeframe time) rows

  abbrev pub new_row : Candle F → CandleRow F
  new_row candle = record { ticker = ticker; timeframe = timeframe; bar = candle }

  -- The row of the bar's time gets the new prices.
  unfoldable pub change_bar : Candle F → List (CandleRow F) → List (CandleRow F)
  change_bar candle [] = []
  change_bar candle (row ∷ rows) =
      let rest = change_bar candle rows in
      if is_bar ticker timeframe candle.ts row
      then record row { bar = candle } ∷ rows
      else row ∷ rest

  abbrev pub write_bar : Bool → Candle F → List (CandleRow F) → List (CandleRow F)
  write_bar true candle rows = change_bar candle rows
  write_bar false candle rows = rows ++ new_row candle ∷ []

  -- The loop: whether a bar was there is known from the query before it.
  unfoldable pub write_batch :
      (Datetime → Bool) → List (Candle F) → List (CandleRow F) → (ℕ × ℕ) × List (CandleRow F)
  unfolding change_bar
  write_batch existing [] rows = ((0, 0), rows)
  write_batch existing (c ∷ candles) rows =
      let rest = write_batch existing candles (write_bar (existing c.ts) c rows) in
      (count_bar (existing c.ts) rest.0, rest.1)

  -- `upsert_batch`
  unfoldable pub upsert_batch :
      {G : Type 0} → Connection G → List (Candle F) → Act (G × List (CandleRow F)) (ℕ × ℕ)
  unfolding write_batch
  upsert_batch db [] = pure (0, 0)
  upsert_batch db (c ∷ candles) = read db is_present >>= λ existing. beside db.commit >> λ w.
      let written = write_batch existing (c ∷ candles) w.1 in (ok written.0, (w.0, written.1))

  -- The bars written one by one.
  abbrev pub upsert_each : List (Candle F) → List (CandleRow F) → List (CandleRow F)
  upsert_each [] rows = rows
  upsert_each (c ∷ candles) rows = upsert_each candles (upsert_incremental ticker timeframe c rows)

  -- No two bars of one time.
  abbrev pub AreDistinct : List (Candle F) → Type 0
  AreDistinct [] = Unit
  AreDistinct (c ∷ candles) = All (λ x. (c.ts == x.ts) ≡ false) candles × AreDistinct candles

  change_bar_lem :
      (c : Candle F) (rows : List (CandleRow F))
      → is_present rows c.ts ≡ true
      → change_bar c rows ≡ upsert_incremental ticker timeframe c rows
  unfolding change_bar upsert_incremental
  change_bar_lem c [] h = cc h
  change_bar_lem c (row ∷ rows) h =
      by_test (is_bar ticker timeframe c.ts row) h (change_bar_lem c rows)
    where
      by_test :
          (here : Bool)
          → (here || is_present rows c.ts) ≡ true
          → (is_present rows c.ts ≡ true
              → change_bar c rows ≡ upsert_incremental ticker timeframe c rows)
          → (if here then record row { bar = c } ∷ rows else row ∷ change_bar c rows) ≡ (
              if here
              then record row { bar = c } ∷ rows
              else row ∷ upsert_incremental ticker timeframe c rows)
      by_test true h' rest = refl
      by_test false h' rest = ap (λ xs. row ∷ xs) (rest h')

  append_lem :
      (c : Candle F) (rows : List (CandleRow F))
      → is_present rows c.ts ≡ false
      → rows ++ new_row c ∷ [] ≡ upsert_incremental ticker timeframe c rows
  unfolding upsert_incremental
  append_lem c [] h = refl
  append_lem c (row ∷ rows) h = by_test (is_bar ticker timeframe c.ts row) h (append_lem c rows)
    where
      by_test :
          (here : Bool)
          → (here || is_present rows c.ts) ≡ false
          → (is_present rows c.ts ≡ false
              → rows ++ new_row c ∷ [] ≡ upsert_incremental ticker timeframe c rows)
          → row ∷ (rows ++ new_row c ∷ []) ≡ (
              if here
              then record row { bar = c } ∷ rows
              else row ∷ upsert_incremental ticker timeframe c rows)
      by_test true h' rest = cc h'
      by_test false h' rest = ap (λ xs. row ∷ xs) (rest h')

  write_bar_lem :
      (c : Candle F) (rows : List (CandleRow F)) (existing : Bool)
      → is_present rows c.ts ≡ existing
      → write_bar existing c rows ≡ upsert_incremental ticker timeframe c rows
  write_bar_lem c rows true h = change_bar_lem c rows h
  write_bar_lem c rows false h = append_lem c rows h

  -- A bar of another time is present as before.
  present-upsert :
      (c : Candle F) (rows : List (CandleRow F)) (time : Datetime)
      → (c.ts == time) ≡ false
      → is_present (upsert_incremental ticker timeframe c rows) time ≡ is_present rows time
  unfolding upsert_incremental
  present-upsert c [] time other = ground (arith, other)
  present-upsert c (row ∷ rows) time other = ground (arith, other, present-upsert c rows time other)

  -- The query before the loop tells of every bar that is left whether it is there.
  abbrev IsKnown : (Datetime → Bool) → List (CandleRow F) → List (Candle F) → Type 0
  IsKnown existing rows = All (λ c. is_present rows c.ts ≡ existing c.ts)

  write_batch_lem :
      (existing : Datetime → Bool) (candles : List (Candle F)) (rows : List (CandleRow F))
      → IsKnown existing rows candles
      → AreDistinct candles
      → (write_batch existing candles rows).1 ≡ upsert_each candles rows
  unfolding write_batch
  write_batch_lem existing [] rows known distinct = refl
  write_batch_lem existing (c ∷ candles) rows known distinct =
      ap (λ r. (write_batch existing candles r).1) (write_bar_lem c rows (existing c.ts) known.0)
      ∙ write_batch_lem existing candles (upsert_incremental ticker timeframe c rows)
          (still_known candles known.1 distinct.0) distinct.1
    where
      still_known :
          (xs : List (Candle F))
          → IsKnown existing rows xs
          → All (λ x. (c.ts == x.ts) ≡ false) xs
          → IsKnown existing (upsert_incremental ticker timeframe c rows) xs
      still_known [] k a = tt
      still_known (x ∷ xs) k a = (present-upsert c rows x.ts a.0 ∙ k.0, still_known xs k.1 a.1)

  All-refl :
      (rows : List (CandleRow F)) (candles : List (Candle F))
      → IsKnown (is_present rows) rows candles
  All-refl rows [] = tt
  All-refl rows (c ∷ candles) = (refl, All-refl rows candles)

  write_batch-length :
      (existing : Datetime → Bool) (candles : List (Candle F)) (rows : List (CandleRow F))
      → let (inserted, updated) = (write_batch existing candles rows).0 in
        inserted + updated ≡ length candles
  unfolding write_batch
  write_batch-length existing [] rows = omega arith
  write_batch-length existing (c ∷ candles) rows =
      by_test (existing c.ts) _
        (write_batch-length existing candles (write_bar (existing c.ts) c rows))
    where
      by_test :
          (there : Bool) (n : ℕ × ℕ)
          → n.0 + n.1 ≡ length candles
          → (count_bar there n).0 + (count_bar there n).1 ≡ suc (length candles)
      by_test true n h = omega (arith, h)
      by_test false n h = omega (arith, h)

  -- The bars are written as one by one, and counted.
  abbrev pub IsWritten :
      {G : Type 0} → List (Candle F) → List (CandleRow F) → ℕ × ℕ → G × List (CandleRow F) → Type 0
  IsWritten candles rows (inserted, updated) w =
      (w.1 ≡ upsert_each candles rows) × (inserted + updated ≡ length candles)

  -- A batch in which no two bars have the same time leaves the table as if its bars had been written
  -- one by one with `upsert_incremental`, and counts each of them once; a batch that raises changes
  -- nothing.
  pub upsert_batch-IsWritten :
      {G : Type 0} (db : Connection G) (candles : List (Candle F)) (g : G)
      (rows : List (CandleRow F))
      → AreDistinct candles
      → After (IsWritten candles rows) (λ _ w. w.1 ≡ rows) (upsert_batch db candles (g, rows))
  unfolding upsert_batch
  upsert_batch-IsWritten db [] g rows distinct = (refl, omega arith)
  upsert_batch-IsWritten {G} db (c ∷ candles) g rows distinct =
      let all = c ∷ candles in
      let write : (Datetime → Bool) → Act (G × List (CandleRow F)) (ℕ × ℕ) = λ existing.
        beside db.commit >> λ w.
        let written = write_batch existing all w.1 in (ok written.0, (w.0, written.1)) in
      read-After db is_present write (IsWritten all rows) (λ _ w. w.1 ≡ rows) g rows (λ e h. refl)
        (λ h.
          beside-After db.commit
            (λ _ w.
              let written = write_batch (is_present rows) all w.1 in
              (ok written.0, (w.0, written.1)))
            (IsWritten all rows) (λ _ w. w.1 ≡ rows) h rows (λ e k. refl)
            (λ _ k. (
              write_batch_lem (is_present rows) all rows (All-refl rows all) distinct,
              write_batch-length (is_present rows) all rows,
            )))
