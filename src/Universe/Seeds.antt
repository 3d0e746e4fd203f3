-- ===== src/Universe/Seeds.antt =====
-- `bootstrap_universe_on_first_run` of app/services/universe_bootstrap.py; the fetch of the seeds, which
-- asks a server, is an argument.
use haru_trade_manager.Common.{
  ℕ, zero, suc, String, Bool, true, false, Option, none, some, List, [], ◌∷◌, ◌++◌, Act, ok,
  Failure, ErrorKind, sql_error, pure, catch, ◌>>=◌, ◌>>◌, if◌then◌else◌, length, strip, truthy,
  fstring, show,
}
use haru_trade_manager.Runtime.{beside}
use haru_trade_manager.Paper.{Connection, read}
use haru_trade_manager.Universe.{Symbol, normal, every_symbol, count_symbols}
use haru_trade_manager.Universe.Sources.{normalize_universe_source}

-- An item of the seeds: texts, "" for a ticker or a market that is missing.
pub record Seed : Type 0 where
  pub ticker : String
  pub name : Option String
  pub market : String

-- What the fetch answers; `error` is "unknown" where there is none.
pub record Seeds : Type 0 where
  pub is_ok : Bool
  pub error : String
  pub items : List Seed

pub record Bootstrap : Type 0 where
  pub bootstrapped : Bool
  pub source : Option String
  pub message : String
  pub seeded_count : Option ℕ

abbrev pub skipped_with : String → Bootstrap
skipped_with message = record {
  bootstrapped = false;
  source = none;
  message = message;
  seeded_count = none;
}

-- The rows to add, or the market that is not valid.
pub data Added : Type 0 where
  rows : List Symbol → Added
  invalid_market : String → Added

abbrev pub or_ticker : Option String → String → String
or_ticker none ticker = ticker
or_ticker (some name) ticker = if truthy (strip name) then strip name else ticker

abbrev pub new_symbol : Seed → String → Symbol
new_symbol seed market = record {
  ticker = strip seed.ticker;
  name = or_ticker seed.name (strip seed.ticker);
  market = market;
  in_universe = true;
  is_active = false;
  is_blocked = false;
  status = normal;
}

abbrev pub with_row : Symbol → Added → Added
with_row row (rows more) = rows (row ∷ more)
with_row row (invalid_market market) = invalid_market market

module _ (upper : String → String) where
  abbrev pub add_valid : Seed → Option String → Added → Added
  add_valid seed none rest = invalid_market seed.market
  add_valid seed (some market) rest = with_row (new_symbol seed market) rest

  -- The loop over the items.
  unfoldable pub add_seeds : List Seed → Added
  unfolding normalize_universe_source
  add_seeds [] = rows []
  add_seeds (seed ∷ seeds) =
      let rest = add_seeds seeds in
      if truthy (strip seed.ticker)
      then add_valid seed (normalize_universe_source upper (some seed.market)) rest
      else rest

  module _ (rank : String → ℕ) (ilike : String → String → Bool) {G : Type 0} (db : Connection G)
      (seed_fetcher : Act G Seeds) where
    abbrev pub bootstrapped_with : ℕ → Bootstrap
    bootstrapped_with count = record {
      bootstrapped = true;
      source = some "prd_index_constituents";
      message = fstring ("bootstrapped:" ∷ show count ∷ []);
      seeded_count = some count;
    }

    -- The rows are written by one commit; a session that is left without one writes nothing.
    unfoldable pub write_rows : Added → Act (G × List Symbol) Bootstrap
    write_rows (invalid_market market) =
        pure (skipped_with (fstring ("bootstrap_error:invalid_market:" ∷ market ∷ [])))
    write_rows (rows added) =
        beside db.commit >> λ w. (ok (bootstrapped_with (length added)), (w.0, w.1 ++ added))

    unfoldable pub from_items : List Seed → Act (G × List Symbol) Bootstrap
    unfolding write_rows add_seeds
    from_items [] = pure (skipped_with "seed_fetch_empty")
    from_items (seed ∷ seeds) = beside db.connect >> write_rows (add_seeds (seed ∷ seeds))

    abbrev pub from_seeds : Seeds → Act (G × List Symbol) Bootstrap
    unfolding from_items
    from_seeds answer =
        if answer.is_ok
        then from_items answer.items
        else pure (skipped_with (fstring ("seed_fetch_failed:" ∷ answer.error ∷ [])))

    unfoldable pub if_empty : ℕ → Act (G × List Symbol) Bootstrap
    unfolding from_seeds
    if_empty zero = beside seed_fetcher >>= from_seeds
    if_empty (suc n) = pure (skipped_with (fstring ("already_initialized:" ∷ show (suc n) ∷ [])))

    abbrev pub on_error : ErrorKind → Failure → Bootstrap
    on_error sql_error exc = skipped_with (fstring ("bootstrap_db_error:" ∷ exc.text ∷ []))
    on_error _ exc = skipped_with (fstring ("bootstrap_error:" ∷ exc.text ∷ []))

    -- `bootstrap_universe_on_first_run`
    unfoldable pub bootstrap_universe_on_first_run : Act (G × List Symbol) Bootstrap
    unfolding if_empty
    bootstrap_universe_on_first_run =
        catch (beside db.connect >> read db (count_symbols rank ilike every_symbol) >>= if_empty)
          (λ exc. pure (on_error exc.kind exc))
