-- ===== src/Backtest/Jobs/Counts.antt =====
-- The counts of a job, after any number of its signals.
use haru_trade_manager.Common.{
  ◌≡◌, ℕ, suc, ◌+◌, ◌≤◌, String, [], ◌∷◌, Outcome, ok, raised, Failure, ErrorKind, sql_error,
  key_error, value_error, other_error, if_then_else-P, arith, length, length-append, Dict, lookup,
  insert, Double,
}
use haru_trade_manager.Backtest.Jobs.Tally.{Tally, or_zero, add_result, skip_value, tally_trade}

-- The sum of the values of a dict of counts.
abbrev pub total_of : Dict ℕ → ℕ
total_of [] = 0
total_of ((key, n) ∷ rows) = n + total_of rows

-- One more under a key is one more in all.
total_of-insert :
    (key : String) (rows : Dict ℕ)
    → total_of (insert key (suc (or_zero (lookup key rows))) rows) ≡ suc (total_of rows)
unfolding insert lookup
total_of-insert key [] = omega arith
total_of-insert key ((other, n) ∷ rows) = ground (arith, total_of-insert key rows)

module _ {F : Type 0} ⦃d : Double F⦄ where
  -- The counts after `n` signals.
  abbrev pub Counts : ℕ → Tally F → Type 0
  Counts n t =
      (length t.pnls + t.skipped ≡ n)
      × (t.wins + t.losses ≤ length t.pnls)
      × (total_of t.reasons ≡ length t.pnls)

  add_result-Counts :
      (n : ℕ) (pnl ret : F) (reason : String) (t : Tally F)
      → Counts n t
      → Counts (suc n) (add_result (pnl, ret, reason) t)
  unfolding add_result
  add_result-Counts n pnl ret reason t h =
      let longer = length-append t.pnls (pnl ∷ []) in
      let more = total_of-insert reason t.reasons in
      if_then_else-P (Counts (suc n)) (d.lt (d.of_nat 0) pnl) _ _
        (λ _. (omega (arith, h, longer), omega (arith, h, longer), omega (arith, h, longer, more)))
        (λ _.
          if_then_else-P (Counts (suc n)) (d.lt pnl (d.of_nat 0)) _ _
            (λ _.
              (omega (arith, h, longer), omega (arith, h, longer), omega (arith, h, longer, more)))
            (λ _.
              (omega (arith, h, longer), omega (arith, h, longer), omega (arith, h, longer, more))))

  abbrev pub IsTallied : ℕ → Outcome (Tally F) → Type 0
  IsTallied n (ok t) = Counts n t
  IsTallied n (raised e) = Unit

  skip_value-IsTallied :
      (n : ℕ) (t : Tally F) (kind : ErrorKind) (exc : Failure)
      → Counts n t
      → IsTallied (suc n) (skip_value t kind exc)
  skip_value-IsTallied n t value_error exc h = (omega (arith, h), h.1, h.2)
  skip_value-IsTallied n t sql_error exc h = tt
  skip_value-IsTallied n t key_error exc h = tt
  skip_value-IsTallied n t other_error exc h = tt

  pub tally_trade-IsTallied :
      (n : ℕ) (t : Tally F) (r : Outcome (F × F × String))
      → Counts n t
      → IsTallied (suc n) (tally_trade t r)
  unfolding tally_trade
  tally_trade-IsTallied n t (ok (pnl, ret, reason)) h = add_result-Counts n pnl ret reason t h
  tally_trade-IsTallied n t (raised exc) h = skip_value-IsTallied n t exc.kind exc h
