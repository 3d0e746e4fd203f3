-- ===== src/Paper.antt =====
-- app/repositories/paper.py over the tables of app/db/models/paper.py: the orders and trades on paper.
-- Every call of the database may raise; a commit that raises writes nothing.
pub mod Steady
use text.Mathlib.Text.{◌==◌ as str_eq}
use haru_trade_manager.Common.{
  ℕ, suc, String, Bool, true, false, ◌&&◌, Option, none, some, List, [], ◌∷◌, ◌++◌, Act, ok, pure,
  ◌>>=◌, ◌>>◌, if◌then◌else◌, leb, length, drop, take, strip, truthy, filter, page_by, sort_by,
}
use mathlib.Core.List.{reverse}
use haru_trade_manager.Domain.{Datetime}
use haru_trade_manager.Runtime.{beside}

-- The database, as far as a call of it may raise: a session that is opened, a query, a commit, and
-- the refresh of a row after it.
pub record Connection (G : Type 0) : Type 0 where
  pub connect : Act G (Unit {0})
  pub query : Act G (Unit {0})
  pub commit : Act G (Unit {0})
  pub refresh : Act G (Unit {0})

module _ {G : Type 0} (db : Connection G) {M : Type 0} {A : Type 0} where
  -- A query of the tables.
  abbrev pub read : (M → A) → Act (G × M) A
  read f = beside db.query >> λ w. (ok (f w.1), w)

  -- `db.add(row)`, `db.commit()`, `db.refresh(row)`
  abbrev pub commit_row : Act (G × M) A → Act (G × M) A
  commit_row add = beside db.commit >> add >>= λ row. beside db.refresh >> pure row

pub record PaperOrder (F : Type 0) : Type 0 where
  pub id : ℕ
  pub ticker : String
  pub side : String
  pub order_type : String
  pub price : F
  pub quantity : F
  pub status : String
  pub created_at : Datetime

pub record PaperTrade (F : Type 0) : Type 0 where
  pub id : ℕ
  pub ticker : String
  pub strategy_id : String
  pub side : String
  pub entry_price : F
  pub exit_price : Option F
  pub quantity : F
  pub pnl : Option F
  pub created_at : Datetime

pub record PaperTables (F : Type 0) : Type 0 where
  pub orders : List (PaperOrder F)
  pub trades : List (PaperTrade F)

-- `if start is not None: stmt = stmt.where(time >= start)`, and the same for the end
abbrev pub since : Option Datetime → Datetime → Bool
since none time = true
since (some start) time = leb start time

abbrev pub until : Option Datetime → Datetime → Bool
until none time = true
until (some end) time = leb time end

-- `if value is not None and value.strip(): stmt = stmt.where(column == value.strip())`
abbrev pub is_stripped : Option String → String → Bool
is_stripped none column = true
is_stripped (some value) column = if truthy (strip value) then str_eq column (strip value) else true

-- The same with the value as it is.
abbrev pub is_value : Option String → String → Bool
is_value none column = true
is_value (some value) column = if truthy (strip value) then str_eq column value else true

-- The filters of `list_trades` and `count_trades`.
pub record TradeQuery : Type 0 where
  pub start : Option Datetime
  pub end : Option Datetime
  pub ticker : Option String
  pub strategy_id : Option String
  pub side : Option String

abbrev pub every_trade : TradeQuery
every_trade = record { start = none; end = none; ticker = none; strategy_id = none; side = none }

module _ {F : Type 0} where
  abbrev pub is_selected : TradeQuery → PaperTrade F → Bool
  is_selected q trade =
      since q.start trade.created_at
      && until q.end trade.created_at
      && is_stripped q.ticker trade.ticker
      && is_value q.strategy_id trade.strategy_id
      && is_stripped q.side trade.side

  -- `list_trades`: by their time, or the other way round.
  unfoldable pub list_trades : TradeQuery → ℕ → ℕ → Bool → PaperTables F → List (PaperTrade F)
  list_trades q offset limit false t =
      page_by (λ x. x.created_at) offset limit (filter (is_selected q) t.trades)
  list_trades q offset limit true t =
      take limit
        (drop offset (reverse (sort_by (λ x. x.created_at) (filter (is_selected q) t.trades))))

  -- `count_trades`
  unfoldable pub count_trades : TradeQuery → PaperTables F → ℕ
  count_trades q t = length (filter (is_selected q) t.trades)

  -- `list_orders`
  unfoldable pub list_orders : ℕ → PaperTables F → List (PaperOrder F)
  list_orders limit t = page_by (λ x. x.created_at) 0 limit t.orders

  module _ {G : Type 0} (db : Connection G) where
    abbrev pub add_trade : PaperTrade F → Act (G × PaperTables F) (PaperTrade F)
    add_trade trade (g, t) =
        let row = record trade { id = suc (length t.trades) } in
        (ok row, (g, record t { trades = t.trades ++ row ∷ [] }))

    -- `create_trade`; the database numbers the rows.
    unfoldable pub create_trade : PaperTrade F → Act (G × PaperTables F) (PaperTrade F)
    create_trade trade = commit_row db (add_trade trade)

    abbrev pub add_order : PaperOrder F → Act (G × PaperTables F) (PaperOrder F)
    add_order order (g, t) =
        let row = record order { id = suc (length t.orders) } in
        (ok row, (g, record t { orders = t.orders ++ row ∷ [] }))

    -- `create_order`
    unfoldable pub create_order : PaperOrder F → Act (G × PaperTables F) (PaperOrder F)
    create_order order = commit_row db (add_order order)
