-- ===== src/Backtest/Jobs/Tally.antt =====
-- The results of the trades of a job, and the numbers that are made of them.
use haru_trade_manager.Common.{
  ℕ, zero, suc, String, Option, none, some, List, [], ◌∷◌, ◌++◌, Outcome, ok, raised, and_then,
  Failure, ErrorKind, value_error, if◌then◌else◌, length, filter, Dict, lookup, insert, Double, eq,
  add, sub, mul, div, lt, gt, of_nat, nought, sum_f, abs_f,
}
use haru_trade_manager.Domain.{Candle, Signal}
use haru_trade_manager.Backtest.{Multiples, simulate_trade, Drawdown.{max_drawdown}}
use haru_trade_manager.Backtest.Jobs.{Result}

-- The local variables of `_run_job`.
pub record Tally (F : Type 0) : Type 0 where
  pub pnls : List F
  pub returns : List F
  pub reasons : Dict ℕ
  pub wins : ℕ
  pub losses : ℕ
  pub skipped : ℕ

abbrev pub or_zero : Option ℕ → ℕ
or_zero none = 0
or_zero (some n) = n

module _ {F : Type 0} ⦃d : Double F⦄ where
  abbrev pub no_trades : Tally F
  no_trades = record { pnls = []; returns = []; reasons = []; wins = 0; losses = 0; skipped = 0 }

  -- `if pnl > 0: wins += 1` / `elif pnl < 0: losses += 1`
  abbrev pub count_sides : F → Tally F → Tally F
  count_sides pnl t =
      if gt pnl nought
      then record t { wins = suc t.wins }
      else if lt pnl nought
      then record t { losses = suc t.losses }
      else t

  unfoldable pub add_result : F × F × String → Tally F → Tally F
  add_result (pnl, ret, reason) t = count_sides pnl (record t {
    pnls = t.pnls ++ pnl ∷ [];
    returns = t.returns ++ ret ∷ [];
    reasons = insert reason (suc (or_zero (lookup reason t.reasons))) t.reasons;
  })

  -- `except ValueError: skipped += 1`
  abbrev pub skip_value : Tally F → ErrorKind → Failure → Outcome (Tally F)
  skip_value t value_error exc = ok (record t { skipped = suc t.skipped })
  skip_value t _ exc = raised exc

  unfoldable pub tally_trade : Tally F → Outcome (F × F × String) → Outcome (Tally F)
  unfolding add_result
  tally_trade t (ok trade) = ok (add_result trade t)
  tally_trade t (raised exc) = skip_value t exc.kind exc

  -- One signal.
  unfoldable pub tally_signal :
      F → Multiples F → List (Candle F) → Signal F → Tally F → Outcome (Tally F)
  unfolding tally_trade simulate_trade
  tally_signal slippage_pct m candles signal t =
      tally_trade t (simulate_trade slippage_pct m candles signal)

  -- `x / n if n else 0.0`
  abbrev pub per_trade : F → ℕ → F
  per_trade x zero = nought
  per_trade x (suc n) = div x (of_nat (suc n))

  -- `(x - avg) ** 2` of each, in a sum from the left; a power that overflows raises.
  abbrev pub add_squares : (F → Outcome F) → F → List F → F → Outcome F
  add_squares square avg [] total = ok total
  add_squares square avg (x ∷ xs) total =
      and_then (square (sub x avg)) (λ y. add_squares square avg xs (add total y))

  abbrev pub sharpe_of : (F → Outcome F) → F → F → ℕ → Outcome F
  sharpe_of sqrt avg std count =
      if eq std nought
      then ok (if gt avg nought then of_nat 10 else nought)
      else and_then (sqrt (of_nat count)) (λ root. ok (mul (div avg std) root))

  -- `_sharpe_ratio`; `square` is `** 2` and `sqrt` is `math.sqrt`.
  unfoldable pub sharpe_ratio : (F → Outcome F) → (F → Outcome F) → List F → Outcome F
  sharpe_ratio square sqrt (x ∷ y ∷ rest) =
      let returns = x ∷ y ∷ rest in
      let count = of_nat (length returns) in
      let avg = div (sum_f returns) count in
      and_then (add_squares square avg returns nought)
        λ total. and_then (sqrt (div total count)) λ std. sharpe_of sqrt avg std (length returns)
  sharpe_ratio square sqrt returns = ok nought

  abbrev pub factor_of : F → F → Option F
  factor_of gross_profit gross_loss =
      if gt gross_loss nought then some (div gross_profit gross_loss) else none

  -- The dict `result`.
  abbrev pub result_with : Multiples F → Tally F → F → Result F
  unfolding max_drawdown
  result_with m t sharpe =
      let trade_count = length t.pnls in
      let gross_profit = sum_f (filter (λ x. gt x nought) t.pnls) in
      let gross_loss = abs_f (sum_f (filter (λ x. lt x nought) t.pnls)) in
      record {
        trade_count = trade_count;
        wins = t.wins;
        losses = t.losses;
        skipped = t.skipped;
        win_rate = per_trade (of_nat t.wins) trade_count;
        total_pnl = sum_f t.pnls;
        avg_pnl = per_trade (sum_f t.pnls) trade_count;
        expectancy_r = per_trade (sum_f t.returns) trade_count;
        total_return = sum_f t.returns;
        total_return_pct = mul (sum_f t.returns) (of_nat 100);
        sharpe_ratio = sharpe;
        mdd = max_drawdown t.returns;
        gross_profit = gross_profit;
        gross_loss = gross_loss;
        profit_factor = factor_of gross_profit gross_loss;
        exit_reasons = t.reasons;
        multiples = m;
      }

  unfoldable pub result_of :
      (F → Outcome F) → (F → Outcome F) → Multiples F → Tally F → Outcome (Result F)
  unfolding sharpe_ratio result_with
  result_of square sqrt m t =
      and_then (sharpe_ratio square sqrt t.returns) (λ sharpe. ok (result_with m t sharpe))
