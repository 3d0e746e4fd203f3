-- ===== src/Universe.antt =====
-- app/repositories/universe.py over the table of app/db/models/universe.py: the symbols that may be
-- traded. How the database orders texts and what `ilike` matches are arguments: `rank` is the place of
-- a text in the order.
pub mod Sources
pub mod Liquidity
pub mod Seeds
pub mod NewRows
pub mod Rows
pub mod Chosen
use text.Mathlib.Text.{◌==◌ as str_eq}
use haru_trade_manager.Common.{
  ℕ, String, Bool, true, false, not, ◌&&◌, ◌||◌, Option, none, some, List, [], ◌∷◌, ◌++◌, map, Act,
  Outcome, ok, raised, Failure, key_error, pure, throw, ◌>>=◌, ◌>>◌, if◌then◌else◌, length, filter,
  page_by, strip, truthy, fstring,
}
use haru_trade_manager.Runtime.{beside}
use haru_trade_manager.Paper.{Connection, read, is_value}

pub record Symbol : Type 0 where
  pub ticker : String
  pub name : String
  pub market : String
  pub in_universe : Bool
  pub is_active : Bool
  pub is_blocked : Bool
  pub status : String

-- `UniverseStatus`
abbrev pub normal : String
normal = "normal"

abbrev pub exit_pending : String
exit_pending = "exit_pending"

abbrev pub removed : String
removed = "removed"

abbrev pub halted : String
halted = "halted"

-- `universe_status_label_ko`
abbrev pub universe_status_label_ko : String → String
universe_status_label_ko raw_status =
    if str_eq raw_status normal
    then "정상"
    else if str_eq raw_status exit_pending
    then "이탈 예정"
    else if str_eq raw_status removed
    then "제외됨"
    else if str_eq raw_status halted
    then "거래정지"
    else fstring ("알 수 없음(" ∷ raw_status ∷ ")" ∷ [])

-- The filters of `list_symbols` and `count_symbols`.
pub record SymbolQuery : Type 0 where
  pub runtime_only : Bool
  pub in_universe : Option Bool
  pub market : Option String
  pub is_active : Option Bool
  pub is_blocked : Option Bool
  pub status : Option String
  pub ticker_query : Option String

abbrev pub every_symbol : SymbolQuery
every_symbol = record {
  runtime_only = false;
  in_universe = none;
  market = none;
  is_active = none;
  is_blocked = none;
  status = none;
  ticker_query = none;
}

-- In the universe, active, not blocked and not halted.
abbrev pub is_trading : Symbol → Bool
is_trading row =
    row.in_universe && row.is_active && not row.is_blocked && not (str_eq row.status halted)

abbrev pub is_tracking : Symbol → Bool
is_tracking row = row.in_universe && row.is_active

abbrev pub is_flag : Option Bool → Bool → Bool
is_flag none column = true
is_flag (some flag) column = if flag then column else not column

module _ (rank : String → ℕ) (ilike : String → String → Bool) where
  abbrev pub is_like : Option String → Symbol → Bool
  is_like none row = true
  is_like (some query) row =
      if truthy (strip query)
      then ilike row.ticker (fstring ("%" ∷ strip query ∷ "%" ∷ []))
        || ilike row.name (fstring ("%" ∷ strip query ∷ "%" ∷ []))
      else true

  abbrev pub is_matched : SymbolQuery → Symbol → Bool
  is_matched q row =
      (if q.runtime_only then is_trading row else true)
      && is_flag q.in_universe row.in_universe
      && is_value q.market row.market
      && is_flag q.is_active row.is_active
      && is_flag q.is_blocked row.is_blocked
      && is_value q.status row.status
      && is_like q.ticker_query row

  -- `list_symbols`
  unfoldable pub list_symbols : SymbolQuery → ℕ → ℕ → List Symbol → List Symbol
  list_symbols q offset limit rows =
      page_by (λ row. rank row.ticker) offset limit (filter (is_matched q) rows)

  -- `count_symbols`
  unfoldable pub count_symbols : SymbolQuery → List Symbol → ℕ
  count_symbols q rows = length (filter (is_matched q) rows)

abbrev pub tickers_of : List Symbol → List String
tickers_of = map (λ row. row.ticker)

module _ (rank : String → ℕ) where
  abbrev pub first_rows : (Symbol → Bool) → ℕ → List Symbol → List Symbol
  first_rows test limit rows = page_by (λ row. rank row.ticker) 0 limit (filter test rows)

  -- `list_trading_tickers`, and `list_runtime_tickers`
  unfoldable pub list_trading_tickers : ℕ → List Symbol → List String
  list_trading_tickers limit rows = tickers_of (first_rows is_trading limit rows)

  -- `list_tracking_tickers`
  unfoldable pub list_tracking_tickers : ℕ → List Symbol → List String
  list_tracking_tickers limit rows = tickers_of (first_rows is_tracking limit rows)

  -- `list_universe_tickers`
  unfoldable pub list_universe_tickers : ℕ → List Symbol → List String
  list_universe_tickers limit rows = tickers_of (first_rows (λ row. row.in_universe) limit rows)

-- `db.get(Symbol, ticker)`
unfoldable pub get_symbol : String → List Symbol → Option Symbol
get_symbol ticker [] = none
get_symbol ticker (row ∷ rows) =
    let rest = get_symbol ticker rows in if str_eq row.ticker ticker then some row else rest

-- The row of a ticker is changed in place.
unfoldable pub change_symbol : String → (Symbol → Symbol) → List Symbol → List Symbol
change_symbol ticker f [] = []
change_symbol ticker f (row ∷ rows) =
    let rest = change_symbol ticker f rows in
    if str_eq row.ticker ticker then f row ∷ rows else row ∷ rest

-- The row is there, with the values that are given, or it is added.
unfoldable pub put_symbol : Symbol → List Symbol → List Symbol
put_symbol symbol [] = symbol ∷ []
put_symbol symbol (row ∷ rows) =
    let rest = put_symbol symbol rows in
    if str_eq row.ticker symbol.ticker then symbol ∷ rows else row ∷ rest

module _ {G : Type 0} (db : Connection G) where
  -- What a session has changed is written by its commit; the row that is answered is read again.
  abbrev pub commit_rows : {A : Type 0} → (List Symbol → List Symbol) → A → Act (G × List Symbol) A
  commit_rows f answer =
      beside db.commit >> (λ w. (ok tt, (w.0, f w.1))) >> beside db.refresh >> pure answer

  -- `upsert_symbol`
  unfoldable pub upsert_symbol : Symbol → Act (G × List Symbol) Symbol
  upsert_symbol symbol =
      read db (get_symbol symbol.ticker) >> commit_rows (put_symbol symbol) symbol

  abbrev pub blocked_as : Bool → Symbol → Symbol
  blocked_as blocked row = record row { is_blocked = blocked }

  abbrev pub block_found : String → Bool → Option Symbol → Act (G × List Symbol) Symbol
  block_found ticker blocked none =
      throw (record { kind = key_error; text = fstring ("symbol not found: " ∷ ticker ∷ []) })
  block_found ticker blocked (some row) =
      commit_rows (change_symbol ticker (blocked_as blocked)) (blocked_as blocked row)

  -- `set_blocked`
  unfoldable pub set_blocked : String → Bool → Act (G × List Symbol) Symbol
  set_blocked ticker blocked = read db (get_symbol ticker) >>= block_found ticker blocked
