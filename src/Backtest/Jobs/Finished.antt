-- ===== src/Backtest/Jobs/Finished.antt =====
-- How a job ends.
use mathlib.Core.Path.{subst}
use haru_trade_manager.Common.{
  ◌≡◌, sym, ℕ, suc, ◌+◌, max, String, Bool, Option, none, some, List, [], ◌∷◌, Outcome, ok, raised,
  lift, ◌>>=◌, ◌>>◌, arith, length, lookup, After, After-bind, After-catch, After-weaken, Double,
  and_then,
}
use haru_trade_manager.Domain.{Candle, Signal}
use haru_trade_manager.Backtest.{Multiples, simulate_trade}
use haru_trade_manager.Backtest.Jobs.{Job, Jobs, Meta, Result}
use haru_trade_manager.Backtest.Jobs.Tally.{
  Tally, no_trades, tally_signal, sharpe_ratio, result_of, result_with,
}
use haru_trade_manager.Backtest.Jobs.Counts.{Counts, IsTallied, tally_trade-IsTallied}
use haru_trade_manager.Backtest.Jobs.Run.{
  Outside, wait, change_row, running, update_progress, at_progress, percent, run_signals, complete,
  fail, try_run, run_found, run_job,
}
use haru_trade_manager.Backtest.Jobs.Held.{
  IsRespectful, IsHeld, IsResult, IsFinished, Held, Finished, complete-Finished, fail-Finished,
  change_row-on_the_way, change_row-Held, others-Held, Finished-Held,
}

module _ {F G : Type 0} ⦃d : Double F⦄ (o : Outside F G) (job_id : String) (trims : Bool)
    (n : ℕ) where
  tally_signal-Held :
      (slippage_pct : F) (m : Multiples F) (candles : List (Candle F)) (signal : Signal F) (k : ℕ)
      (t : Tally F) (w : G × Jobs F)
      → IsRespectful o job_id trims n
      → Held o job_id trims n w
      → Counts k t
      → After
          (λ t' w'. Held o job_id trims n w' × Counts (suc k) t')
          (λ _. Held o job_id trims n)
          ((wait o job_id >> lift (tally_signal slippage_pct m candles signal t)) w)
  unfolding tally_signal
  tally_signal-Held slippage_pct m candles signal k t w respectful h counts =
      go (tally_signal slippage_pct m candles signal t)
        (tally_trade-IsTallied k t (simulate_trade slippage_pct m candles signal) counts)
    where
      go :
          (r : Outcome (Tally F))
          → IsTallied (suc k) r
          → After
              (λ t' w'. Held o job_id trims n w' × Counts (suc k) t')
              (λ _. Held o job_id trims n)
              ((wait o job_id >> lift r) w)
      go (ok t') c = (others-Held o job_id trims n w respectful h, c)
      go (raised e) c = others-Held o job_id trims n w respectful h

  run_signals-Held :
      (slippage_pct : F) (m : Multiples F) (candles : List (Candle F)) (total idx k : ℕ)
      (signals : List (Signal F)) (t : Tally F) (w : G × Jobs F)
      → IsRespectful o job_id trims n
      → Held o job_id trims n w
      → Counts k t
      → k + length signals ≡ n
      → After
          (λ t' w'. Held o job_id trims n w' × Counts n t')
          (λ _. Held o job_id trims n)
          (run_signals o job_id slippage_pct m candles total idx signals t w)
  unfolding run_signals update_progress
  run_signals-Held slippage_pct m candles total idx k [] t w respectful h counts e =
      (h, subst (λ i. Counts i t) (omega (arith, e)) counts)
  run_signals-Held slippage_pct m candles total idx k (signal ∷ signals) t w respectful h counts e =
      After-bind (λ t' w'. Held o job_id trims n w' × Counts (suc k) t')
        (λ t' w'. Held o job_id trims n w' × Counts n t') (λ _. Held o job_id trims n)
        (wait o job_id >> lift (tally_signal slippage_pct m candles signal t))
        (λ t'.
          update_progress o job_id (percent o job_id idx total)
          >> run_signals o job_id slippage_pct m candles total (suc idx) signals t')
        w (tally_signal-Held slippage_pct m candles signal k t w respectful h counts)
        (λ t' w' next.
          After-bind (λ _. Held o job_id trims n)
            (λ t'' w''. Held o job_id trims n w'' × Counts n t'') (λ _. Held o job_id trims n)
            (update_progress o job_id (percent o job_id idx total))
            (λ _. run_signals o job_id slippage_pct m candles total (suc idx) signals t') w'
            (change_row-on_the_way o job_id trims n
              (at_progress o job_id (percent o job_id idx total)) w' respectful next.0)
            (λ _ w'' held.
              run_signals-Held slippage_pct m candles total (suc idx) (suc k) signals t' w''
                respectful held next.1 (omega (arith, e))))

  abbrev IsGood : Outcome (Result F) → Type 0
  IsGood (ok r) = (IsResult o job_id trims n) r
  IsGood (raised e) = Unit

  result_of-IsGood :
      (square sqrt : F → Outcome F) (m : Multiples F) (t : Tally F)
      → Counts n t
      → IsGood (result_of square sqrt m t)
  unfolding result_of
  result_of-IsGood square sqrt m t counts = go (sharpe_ratio square sqrt t.returns)
    where
      go : (r : Outcome F) → IsGood (and_then r (λ sharpe. ok (result_with m t sharpe)))
      go (ok sharpe) = counts
      go (raised e) = tt

  -- The result is put into the row, or the making of it raised.
  finish-Finished :
      (r : Outcome (Result F)) (w : G × Jobs F)
      → IsRespectful o job_id trims n
      → Held o job_id trims n w
      → IsGood r
      → After
          (λ _. Finished o job_id trims n)
          (λ _. Held o job_id trims n)
          ((lift r >>= complete o job_id) w)
  finish-Finished (ok result) w respectful h good =
      After-weaken _ _ _ _ (complete o job_id result w) (λ _ w' k. k)
        (λ _ w' k. Finished-Held o job_id trims n (lookup job_id w'.1) k)
        (complete-Finished o job_id trims n result w respectful h good)
  finish-Finished (raised e) w respectful h good = h

  try_run-Finished :
      (slippage_pct : F) (candles : List (Candle F)) (signals : List (Signal F)) (meta : Meta F)
      (w : G × Jobs F)
      → IsRespectful o job_id trims n
      → length signals ≡ n
      → Held o job_id trims n w
      → After
          (λ _. Finished o job_id trims n)
          (λ _. Held o job_id trims n)
          (try_run o job_id slippage_pct candles signals meta w)
  unfolding try_run
  try_run-Finished slippage_pct candles signals meta w respectful e h = go meta.multiples
    where
      go :
          (r : Outcome (Multiples F))
          → After
              (λ _. Finished o job_id trims n)
              (λ _. Held o job_id trims n)
              ((lift r >>= λ m.
                  run_signals o job_id slippage_pct m candles
                    (max (length signals) 1)
                    0
                    signals
                    no_trades
                  >>= λ t. lift (result_of o.square o.sqrt m t) >>= complete o job_id)
                w)
      go (ok m) =
          After-bind (λ t w'. Held o job_id trims n w' × Counts n t)
            (λ _. Finished o job_id trims n) (λ _. Held o job_id trims n)
            (run_signals o job_id slippage_pct m candles (max (length signals) 1) 0 signals
              no_trades)
            (λ t. lift (result_of o.square o.sqrt m t) >>= complete o job_id) w
            (run_signals-Held slippage_pct m candles (max (length signals) 1) 0 0 signals no_trades
              w respectful h (omega arith, omega arith, omega arith) (omega (arith, e)))
            (λ t w' k.
              finish-Finished (result_of o.square o.sqrt m t) w' respectful k.0
                (result_of-IsGood o.square o.sqrt m t k.1))
      go (raised exc) = h

  run_found-Finished :
      (slippage_pct : F) (candles : List (Candle F)) (signals : List (Signal F))
      (found : Option (Job F)) (w : G × Jobs F)
      → IsRespectful o job_id trims n
      → length signals ≡ n
      → lookup job_id w.1 ≡ found
      → IsHeld o job_id trims n found
      → After
          (λ _. Finished o job_id trims n)
          (λ _. Finished o job_id trims n)
          (run_found o job_id slippage_pct candles signals found w)
  unfolding run_found
  run_found-Finished slippage_pct candles signals none w respectful e same h =
      subst (IsFinished o job_id trims n) (sym same) h
  run_found-Finished slippage_pct candles signals (some row) w respectful e same h =
      After-catch (λ _. Finished o job_id trims n) (λ _. Finished o job_id trims n)
        (λ _. Held o job_id trims n) (λ _. Finished o job_id trims n)
        (try_run o job_id slippage_pct candles signals row.meta) (fail o job_id) w
        (try_run-Finished slippage_pct candles signals row.meta w respectful e
          (subst (IsHeld o job_id trims n) (sym same) h))
        (λ _ w' k. k) (λ exc w' k. fail-Finished o job_id trims n exc w' respectful k)

  -- Where other tasks leave the row of a job as it is, or take it out, the latter only if `trims` is
  -- true, and the job is in the table, or was taken out: a run over `n` signals ends, however the
  -- simulation, the reading of the meta data and the alert sink fail, with the job completed or failed.
  -- Completed, it is at progress 100 and has a result in which the trades and the skipped signals are
  -- all the signals, wins and losses are no more than the trades, and the exit reasons add up to them;
  -- failed, it has an error. It is gone only where it was taken out.
  pub run_job-IsFinished :
      (slippage_pct : F) (candles : List (Candle F)) (signals : List (Signal F)) (w : G × Jobs F)
      → IsRespectful o job_id trims n
      → length signals ≡ n
      → Held o job_id trims n w
      → After
          (λ _. Finished o job_id trims n)
          (λ _. Finished o job_id trims n)
          (run_job o job_id slippage_pct candles signals w)
  unfolding run_job
  run_job-IsFinished slippage_pct candles signals w respectful e h =
      After-bind (λ r w'. (lookup job_id w'.1 ≡ r) × (IsHeld o job_id trims n) r)
        (λ _. Finished o job_id trims n) (λ _. Finished o job_id trims n)
        (change_row o job_id (running o job_id)) (run_found o job_id slippage_pct candles signals) w
        (After-weaken (λ r w'. (lookup job_id w'.1 ≡ r) × (IsHeld o job_id trims n) r)
          (λ r w'. (lookup job_id w'.1 ≡ r) × (IsHeld o job_id trims n) r) (λ _ _. ⊥)
          (λ _. Finished o job_id trims n) (change_row o job_id (running o job_id) w) (λ r w' k. k)
          (λ e' w' k. absurd k)
          (change_row-Held o job_id trims n (running o job_id) (IsHeld o job_id trims n) w
            respectful h (λ trimmed. trimmed) (λ now row. tt)))
        (λ r w' k. run_found-Finished slippage_pct candles signals r w' respectful e k.0 k.1)
