-- ===== src/Universe/Sources.antt =====
-- `normalize_universe_source` and `migrate_universe_source_labels` of app/services/universe_bootstrap.py;
-- `upper` is Python's.
use text.Mathlib.Text.{◌==◌ as str_eq}
use haru_trade_manager.Common.{
  ℕ, suc, String, Bool, true, false, Option, none, some, List, [], ◌∷◌, map, Act, ok, Failure,
  ErrorKind, sql_error, pure, catch, ◌>>=◌, ◌>>◌, if◌then◌else◌, ltb, member, strip, fstring, show,
}
use haru_trade_manager.Runtime.{beside}
use haru_trade_manager.Paper.{Connection, read}
use haru_trade_manager.Universe.{Symbol, list_symbols, every_symbol, tickers_of}

abbrev pub valid_universe_sources : List String
valid_universe_sources = "KOSPI200" ∷ "KOSDAQ150" ∷ "USER" ∷ []

-- `legacy_map.get(normalized, normalized)`
abbrev pub legacy_of : String → String
legacy_of source =
    if str_eq source "KOSPI"
    then "KOSPI200"
    else if str_eq source "KOSDAQ"
    then "KOSDAQ150"
    else if str_eq source "UNKNOWN"
    then "USER"
    else if str_eq source ""
    then "USER"
    else source

abbrev pub if_valid : String → Option String
if_valid source = if member source valid_universe_sources then some source else none

-- What a migration reports.
pub record Migration : Type 0 where
  pub is_ok : Bool
  pub updated_count : ℕ
  pub message : String

module _ (upper : String → String) where
  -- `normalize_universe_source`
  unfoldable pub normalize_universe_source : Option String → Option String
  normalize_universe_source none = none
  normalize_universe_source (some value) = if_valid (legacy_of (upper (strip value)))

  abbrev pub or_user : Option String → String
  or_user none = "USER"
  or_user (some source) = source

  unfoldable pub label_of : Symbol → String
  unfolding normalize_universe_source
  label_of row = or_user (normalize_universe_source (some row.market))

  -- `if row.market != normalized: row.market = normalized`, for the rows that are listed
  abbrev pub relabel : List String → Symbol → Symbol
  relabel listed row =
      if member row.ticker listed then record row { market = label_of row } else row

  unfoldable pub count_stale : List Symbol → ℕ
  unfolding label_of
  count_stale [] = 0
  count_stale (row ∷ rows) =
      let rest = count_stale rows in if str_eq row.market (label_of row) then rest else suc rest

  module _ (rank : String → ℕ) (ilike : String → String → Bool) {G : Type 0}
      (db : Connection G) where
    abbrev pub twenty_thousand : List Symbol → List Symbol
    twenty_thousand rows = list_symbols rank ilike every_symbol 0 20000 rows

    -- `if updated > 0: db.commit()`; without a commit nothing has changed.
    abbrev pub commit_labels : List Symbol → Act (G × List Symbol) (Unit {0})
    commit_labels listed =
        if ltb 0 (count_stale listed)
        then beside db.commit >> (λ w. (ok tt, (w.0, map (relabel (tickers_of listed)) w.1)))
        else pure tt

    abbrev pub migrated : ℕ → Migration
    migrated updated = record {
      is_ok = true;
      updated_count = updated;
      message = fstring ("normalized:" ∷ show updated ∷ []);
    }

    abbrev pub not_migrated : ErrorKind → Failure → Migration
    not_migrated sql_error exc = record {
      is_ok = false;
      updated_count = 0;
      message = fstring ("db_error:" ∷ exc.text ∷ []);
    }
    not_migrated _ exc = record {
      is_ok = false;
      updated_count = 0;
      message = fstring ("error:" ∷ exc.text ∷ []);
    }

    -- `migrate_universe_source_labels`
    unfoldable pub migrate_universe_source_labels : Act (G × List Symbol) Migration
    unfolding count_stale
    migrate_universe_source_labels =
        catch
          (beside db.connect >> read db twenty_thousand >>= λ listed.
            commit_labels listed >> pure (migrated (count_stale listed)))
          (λ exc. pure (not_migrated exc.kind exc))
