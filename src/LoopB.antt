-- ===== src/LoopB.antt =====
-- `LoopBRunner` of app/loops/loop_b_runtime.py: the bars that have just ended are fetched, written
-- into the table of candles and scanned, once per slot.
pub mod Candles
pub mod Batch
pub mod Once
use text.Mathlib.Text.{◌==◌ as str_eq}
use haru_trade_manager.Common.{
  ℕ, ◌+◌, String, Bool, true, false, ◌&&◌, Option, none, some, List, [], ◌∷◌, Act, Outcome, ok,
  raised, Failure, ErrorKind, sql_error, key_error, value_error, other_error, pure, throw, catch,
  ◌>>=◌, ◌>>◌, if◌then◌else◌,
}
use haru_trade_manager.Domain.{Datetime, Candle}
use haru_trade_manager.Runtime.{beside}
use haru_trade_manager.Schedule.{Clock, due_timeframes, slot_key}
use haru_trade_manager.LoopB.Candles.{
  CandleRow, upsert_incremental, get_last_candle_time, list_recent,
}

-- The world outside: a session, the commit of one bar, the fetcher and the scanner, each of which
-- may raise.
pub record Outside (F G : Type 0) : Type 0 where
  pub session : Act G (Unit {0})
  pub commit : Act G (Unit {0})
  pub fetch_incremental : String → String → Option Datetime → Act G (List (Candle F))
  pub run_for_timeframe : String → String → List (Candle F) → Act G ℕ

-- `self._processed_slots`
abbrev pub Slots : Type 0
Slots = String → String → Option String

unfoldable pub mark_slot : String → String → String → Slots → Slots
mark_slot ticker timeframe slot slots a b =
    if str_eq ticker a && str_eq timeframe b then some slot else slots a b

abbrev pub is_same : String → Option String → Bool
is_same slot none = false
is_same slot (some last) = str_eq last slot

module _ {F G : Type 0} (outside : Outside F G) where
  abbrev pub upsert_one : String → String → Candle F → Act (G × List (CandleRow F)) (Unit {0})
  upsert_one ticker timeframe candle =
      beside outside.commit >> λ w. (ok tt, (w.0, upsert_incremental ticker timeframe candle w.1))

  unfoldable pub upsert_all :
      String → String → List (Candle F) → Act (G × List (CandleRow F)) (Unit {0})
  upsert_all ticker timeframe [] = pure tt
  upsert_all ticker timeframe (candle ∷ fresh) =
      upsert_one ticker timeframe candle >> upsert_all ticker timeframe fresh

  abbrev pub last_time : String → String → Act (G × List (CandleRow F)) (Option Datetime)
  last_time ticker timeframe w = (ok (get_last_candle_time ticker timeframe w.1), w)

  abbrev pub scan_recent : String → String → Act (G × List (CandleRow F)) ℕ
  scan_recent ticker timeframe w =
      beside (outside.run_for_timeframe timeframe ticker (list_recent ticker timeframe 240 w.1)) w

  -- `_sync_and_scan`
  unfoldable pub sync_and_scan : String → String → Act (G × List (CandleRow F)) ℕ
  unfolding upsert_all
  sync_and_scan ticker timeframe = beside outside.session >>= λ _.
      last_time ticker timeframe >>= λ since.
      beside (outside.fetch_incremental ticker timeframe since) >>= λ fresh.
      beside outside.session >>= λ _.
      upsert_all ticker timeframe fresh >>= λ _. scan_recent ticker timeframe

-- The loop over the bars that are due, over any sync: it is run beside the processed slots.
module _ {W : Type 0} (sync : String → Act W ℕ) (ticker : String) (now : Clock) where
  abbrev pub mark : String → ℕ → Act (W × Slots) ℕ
  mark timeframe produced (w, slots) =
      (ok produced, (w, mark_slot ticker timeframe (slot_key now timeframe) slots))

  -- `except SQLAlchemyError: continue`
  abbrev pub if_sql : ErrorKind → Failure → Act (W × Slots) ℕ
  if_sql sql_error exc = pure 0
  if_sql _ exc = throw exc

  abbrev pub skip_sql : Failure → Act (W × Slots) ℕ
  skip_sql exc = if_sql exc.kind exc

  unfoldable pub sync_slot : String → Act (W × Slots) ℕ
  sync_slot timeframe = catch (beside (sync timeframe) >>= mark timeframe) skip_sql

  unfoldable pub scan_one : String → Act (W × Slots) ℕ
  unfolding sync_slot
  scan_one timeframe (w, slots) =
      if is_same (slot_key now timeframe) (slots ticker timeframe)
      then (ok 0, (w, slots))
      else sync_slot timeframe (w, slots)

  unfoldable pub scan_due : List String → Act (W × Slots) ℕ
  unfolding scan_one
  scan_due [] = pure 0
  scan_due (timeframe ∷ due) = scan_one timeframe >>= λ n. scan_due due >>= λ more. pure (n + more)

  -- `run_once_for_ticker`
  unfoldable pub run_once_for_ticker : Act (W × Slots) ℕ
  unfolding scan_due
  run_once_for_ticker = scan_due (due_timeframes now)
