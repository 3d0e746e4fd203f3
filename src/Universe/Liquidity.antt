-- ===== src/Universe/Liquidity.antt =====
-- `recompute_active_universe_from_daily_liquidity` of app/services/universe_bootstrap.py, and the session
-- of app/main.py around it, which commits what it changed.
use text.Mathlib.Text.{◌==◌ as str_eq}
use haru_trade_manager.Common.{
  ℕ, suc, String, Bool, true, false, not, ◌||◌, some, List, [], ◌∷◌, map, Act, Outcome, ok, raised,
  pure, ◌>>=◌, ◌>>◌, if◌then◌else◌, leb, length, member, Double, le, mul, div, of_nat, nought,
  max_f, sum_f,
}
use haru_trade_manager.Domain.{Candle}
use haru_trade_manager.Paper.{Connection}
use haru_trade_manager.LoopB.Candles.{CandleRow, list_recent}
use haru_trade_manager.Universe.{
  Symbol, SymbolQuery, every_symbol, exit_pending, removed, halted, list_symbols, tickers_of,
}

pub record Liquidity (F : Type 0) : Type 0 where
  pub threshold_eok : F
  pub threshold_won : F
  pub in_universe_count : ℕ
  pub active_count : ℕ
  pub updated_count : ℕ
  pub insufficient_daily_count : ℕ

-- The counters of the loop.
pub record Counters : Type 0 where
  pub active : ℕ
  pub updated : ℕ
  pub insufficient : ℕ

-- Halted, removed or about to leave.
abbrev pub is_barred : Symbol → Bool
is_barred row =
    str_eq row.status halted || str_eq row.status removed || str_eq row.status exit_pending

abbrev pub in_universe_only : SymbolQuery
in_universe_only = record every_symbol { in_universe = some true }

abbrev pub listed_rows : (String → ℕ) → (String → String → Bool) → List Symbol → List Symbol
listed_rows rank ilike rows = list_symbols rank ilike in_universe_only 0 20000 rows

-- `!=` of two flags
abbrev pub differs : Bool → Bool → Bool
differs true y = not y
differs false y = y

-- Two counters, in one loop from the last row to the first; only their sums are read.
abbrev pub count_if : Bool → ℕ → ℕ
count_if true n = suc n
count_if false n = n

module _ {F : Type 0} ⦃d : Double F⦄ (candles : List (CandleRow F)) (threshold_won : F) where
  abbrev pub daily_of : Symbol → List (Candle F)
  daily_of row = list_recent row.ticker "1d" 20 candles

  -- `max(float(x.close), 0.0) * max(float(x.volume), 0.0)`
  abbrev pub traded_value : Candle F → F
  traded_value x = mul (max_f x.close nought) (max_f x.volume nought)

  abbrev pub is_enough : Symbol → Bool
  is_enough row = leb 20 (length (daily_of row))

  -- The mean of what was traded in a day is no less than the threshold.
  abbrev pub is_liquid : Symbol → Bool
  is_liquid row =
      le threshold_won
        (div (sum_f (map traded_value (daily_of row))) (of_nat (length (daily_of row))))

  unfoldable pub should_activate : Symbol → Bool
  should_activate row =
      if is_barred row then false else if is_enough row then is_liquid row else false

  abbrev pub is_insufficient : Symbol → Bool
  is_insufficient row = if is_barred row then false else not (is_enough row)

  unfoldable pub count_row : Symbol → Counters → Counters
  unfolding should_activate
  count_row row c = record {
    active = count_if (should_activate row) c.active;
    updated = count_if (differs row.is_active (should_activate row)) c.updated;
    insufficient = count_if (is_insufficient row) c.insufficient;
  }

  abbrev pub activate : List String → Symbol → Symbol
  activate listed row =
      if member row.ticker listed then record row { is_active = should_activate row } else row

  module _ {G : Type 0} (db : Connection G) where
    -- The bars of a row are queried unless it is barred.
    abbrev pub query_daily : Symbol → Act G (Unit {0})
    query_daily row = if is_barred row then pure tt else db.query

    unfoldable pub count_rows : List Symbol → Act G Counters
    unfolding count_row
    count_rows [] = pure (record { active = 0; updated = 0; insufficient = 0 })
    count_rows (row ∷ rows) = query_daily row >> (count_rows rows >>= λ c. pure (count_row row c))

abbrev pub liquidity_of : {F : Type 0} → F → F → List Symbol → Counters → Liquidity F
liquidity_of threshold_eok threshold_won rows c = record {
  threshold_eok = threshold_eok;
  threshold_won = threshold_won;
  in_universe_count = length rows;
  active_count = c.active;
  updated_count = c.updated;
  insufficient_daily_count = c.insufficient;
}

module _ {F : Type 0} ⦃d : Double F⦄ (rank : String → ℕ) (ilike : String → String → Bool)
    {G : Type 0} (db : Connection G) where
  abbrev pub won : F → F
  won threshold_eok = mul threshold_eok (of_nat 100000000)

  -- `recompute_active_universe_from_daily_liquidity`: the report, and the rows as the session has
  -- changed them.
  unfoldable pub recompute_active_universe :
      F → List (CandleRow F) → List Symbol → Act G (Liquidity F × List Symbol)
  unfolding count_rows
  recompute_active_universe threshold_eok candles rows =
      db.query
      >> (count_rows candles (won threshold_eok) db (listed_rows rank ilike rows) >>= λ c. pure (
        liquidity_of threshold_eok (won threshold_eok) (listed_rows rank ilike rows) c,
        map (activate candles (won threshold_eok) (tickers_of (listed_rows rank ilike rows))) rows,
      ))

  -- What was changed is in the table once it is committed.
  abbrev pub committed :
      List Symbol
      → Outcome (Liquidity F × List Symbol) × G
      → Outcome (Liquidity F) × (G × List Symbol)
  committed rows (ok (report, changed), g) = (ok report, (g, changed))
  committed rows (raised exc, g) = (raised exc, (g, rows))

  -- The session of `_handle_config_changed` and of `_run_post_seed_bootstrap`.
  unfoldable pub recompute_and_commit : F → List (CandleRow F) → Act (G × List Symbol) (Liquidity F)
  unfolding recompute_active_universe
  recompute_and_commit threshold_eok candles (g, rows) = committed rows (
      (db.connect
          >> (recompute_active_universe threshold_eok candles rows >>= λ changed.
              db.commit >> pure changed))
        g)
