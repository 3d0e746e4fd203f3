-- ===== src/Trading.antt =====
-- Loop A of app/loops with the trading service and the tables that they write
-- (app/services/trading_service.py, app/repositories/ordering.py). The database is outside: opening
-- a session, a commit or a refresh may raise, and what was committed stays in the tables.
pub mod Execute
pub mod Monitor
pub mod Cycle
pub mod Keeps
pub mod Rows
pub mod Steady
pub mod Backed
pub mod Steps
pub mod Queue
pub mod Counts
use haru_trade_manager.Common.{
  ℕ, String, Option, none, some, List, [], ◌∷◌, ◌++◌, map, Act, Outcome, ok, raised, Failure,
  ErrorKind, sql_error, key_error, pure, throw, ◌>>=◌, ◌>>◌, catch, if◌then◌else◌, ◌==◌, fstring,
  show, Double, Bool, true, false,
}
use haru_trade_manager.Domain.{Datetime, Signal}
use haru_trade_manager.Orders.Position.{PositionRow, PositionState, open_state, Transition, apply}
use haru_trade_manager.Runtime.{beside}

pub record SignalRow (F : Type 0) : Type 0 where
  pub id : ℕ
  pub ticker : String
  pub strategy_id : String
  pub timeframe : String
  pub side : String
  pub signal_price : F
  pub signal_time : Datetime
  pub status : String

pub record OrderRow (F : Type 0) : Type 0 where
  pub id : ℕ
  pub signal_id : Option ℕ
  pub external_order_id : Option String
  pub ticker : String
  pub side : String
  pub order_type : String
  pub price : Option F
  pub quantity : F
  pub filled_quantity : F
  pub status : String
  pub reason : Option String

-- A row of the positions; `row` holds the columns that a transition writes.
pub record Position (F : Type 0) : Type 0 where
  pub id : ℕ
  pub order_id : Option ℕ
  pub ticker : String
  pub strategy_id : String
  pub entry_price : F
  pub stop_price : F
  pub take_profit_price : F
  pub quantity : F
  pub entry_time : Datetime
  pub row : PositionRow F

-- The queue of loop A, and the tables.
pub record Desk (F : Type 0) : Type 0 where
  pub queue : List (Signal F)
  pub signals : List (SignalRow F)
  pub orders : List (OrderRow F)
  pub positions : List (Position F)

-- The database and the clock, as far as the code calls them.
pub record Database (G : Type 0) : Type 0 where
  pub connect : Act G (Unit {0})
  pub select : Act G (Unit {0})
  pub commit : Act G (Unit {0})
  pub refresh : Act G (Unit {0})
  pub new_id : G → ℕ
  pub now : G → Datetime

abbrev pub if_sql : {W A : Type 0} → ErrorKind → Act W A → Failure → Act W A
if_sql sql_error rescue exc = rescue
if_sql _ rescue exc = throw exc

-- `except SQLAlchemyError as exc`: other exceptions go on.
abbrev pub only_sql : {W A : Type 0} → (Failure → Act W A) → Failure → Act W A
only_sql handler exc = if_sql exc.kind (handler exc) exc

module _ {F : Type 0} where
  abbrev pub add_signal : SignalRow F → Desk F → Desk F
  add_signal row desk = record desk { signals = desk.signals ++ row ∷ [] }

  abbrev pub add_order : OrderRow F → Desk F → Desk F
  add_order row desk = record desk { orders = desk.orders ++ row ∷ [] }

  abbrev pub add_position : Position F → Desk F → Desk F
  add_position p desk = record desk { positions = desk.positions ++ p ∷ [] }

  -- `db.get(Position, position_id)`
  find_position : ℕ → List (Position F) → Option (Position F)
  find_position id [] = none
  find_position id (p ∷ rows) =
      let found = find_position id rows in if p.id == id then some p else found

  abbrev pub set_row : ℕ → PositionRow F → List (Position F) → List (Position F)
  set_row id row = map λ p. if p.id == id then record p { row = row } else p

module _ {F G : Type 0} ⦃d : Double F⦄ (db : Database G) where
  -- The commit is through: the change is kept, and the row is read back.
  unfoldable pub keep_change : {A : Type 0} → A → (Desk F → Desk F) → Act (G × Desk F) A
  keep_change a change (g, desk) = (beside db.refresh >> pure a) (g, change desk)

  -- `db.add(row)`, `db.commit()`, `db.refresh(row)`
  unfoldable pub save : {A : Type 0} → A → (Desk F → Desk F) → Act (G × Desk F) A
  unfolding keep_change
  save a change = beside db.commit >> keep_change a change

  abbrev pub new_id : Act (G × Desk F) ℕ
  new_id (g, desk) = (ok (db.new_id g), (g, desk))

  abbrev pub time : Act (G × Desk F) Datetime
  time (g, desk) = (ok (db.now g), (g, desk))

  unfoldable pub create_signal : SignalRow F → Act (G × Desk F) (SignalRow F)
  unfolding save
  create_signal fields = do
    id ← new_id
    save (record fields { id = id }) (add_signal (record fields { id = id }))

  unfoldable pub create_order : OrderRow F → Act (G × Desk F) (OrderRow F)
  unfolding save
  create_order fields = do
    id ← new_id
    save (record fields { id = id }) (add_order (record fields { id = id }))

  unfoldable pub open_position : Position F → Act (G × Desk F) (Position F)
  unfolding save
  open_position fields = do
    id ← new_id
    save (record fields { id = id }) (add_position (record fields { id = id }))

  -- The row that was found is changed, and committed.
  apply_to : ℕ → Transition F → Option (Position F) → Act (G × Desk F) (PositionRow F)
  unfolding save
  apply_to id t none =
      throw (record { kind = key_error; text = fstring ("position not found: " ∷ show id ∷ []) })
  apply_to id t (some p) = do
    now ← time
    save (apply now t p.row)
        (λ desk. record desk { positions = set_row id (apply now t p.row) desk.positions })

  unfoldable pub apply_transition : ℕ → Transition F → Act (G × Desk F) (PositionRow F)
  unfolding apply_to find_position
  apply_transition id t (g, desk) = apply_to id t (find_position id desk.positions) (g, desk)
