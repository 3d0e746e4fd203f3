-- ===== src/Tests/LoopB.antt =====
-- A ticker at 9:15, and a bar that is written twice.
use haru_trade_manager.Common.{
  ◌≡◌,
  refl,
  suc,
  After,
  ℕ,
  String,
  none,
  some,
  [],
  ◌∷◌,
  Act,
  ok,
  Ensures,
  Int.{ℤ, pos},
}
use haru_trade_manager.Domain.{Candle}
use haru_trade_manager.Paper.{Connection}
use haru_trade_manager.Schedule.{Clock}
use haru_trade_manager.LoopB.{run_once_for_ticker}
use haru_trade_manager.LoopB.Candles.{find_bar, upsert_incremental, find_bar-upsert_incremental}
use haru_trade_manager.LoopB.Batch.{IsWritten, upsert_batch, upsert_batch-IsWritten}
use haru_trade_manager.LoopB.Once.{run_once_for_ticker-idempotent}

abbrev quarter_past : Clock
quarter_past = record { date = "2026-03-02"; hour = 9; minute = 15 }

-- The world is the number of syncs, each of which finds two signals.
abbrev two_each : String → Act ℕ ℕ
two_each timeframe w = (ok 2, w)

run_once_for_ticker-idempotent_example :
    Ensures
      (λ _ w'. run_once_for_ticker two_each "005930" quarter_past w' ≡ (ok 0, w'))
      (run_once_for_ticker two_each "005930" quarter_past (0, λ ticker timeframe. none))
run_once_for_ticker-idempotent_example =
    run_once_for_ticker-idempotent two_each "005930" quarter_past (0, λ ticker timeframe. none)
      (λ timeframe w. tt)

abbrev bar : ℕ → Candle ℤ
bar close = record {
  open_price = pos 1;
  high = pos 9;
  low = pos 1;
  close = pos close;
  ts = 60;
  volume = pos 5;
}

find_bar-upsert_incremental_example :
    find_bar "005930" "5m" 60 (
      upsert_incremental "005930" "5m"
        (bar 4)
        (record { ticker = "005930"; timeframe = "5m"; bar = bar 3 } ∷ []))
    ≡ some (bar 4)
find_bar-upsert_incremental_example =
    find_bar-upsert_incremental "005930" "5m" (bar 4)
      (record { ticker = "005930"; timeframe = "5m"; bar = bar 3 } ∷ []) "005930" "5m" 60

abbrev counting : Connection ℕ
counting = record {
  connect = λ n. (ok tt, suc n);
  query = λ n. (ok tt, suc n);
  commit = λ n. (ok tt, suc n);
  refresh = λ n. (ok tt, suc n);
}

upsert_batch-IsWritten_example :
    After
      (IsWritten "005930" "5m" (bar 4 ∷ record (bar 5) { ts = 120 } ∷ []) [])
      (λ _ w. w.1 ≡ [])
      (upsert_batch "005930" "5m" counting (bar 4 ∷ record (bar 5) { ts = 120 } ∷ []) (0, []))
upsert_batch-IsWritten_example =
    upsert_batch-IsWritten "005930" "5m" counting (bar 4 ∷ record (bar 5) { ts = 120 } ∷ []) 0 []
      ((refl, tt), (tt, tt))
