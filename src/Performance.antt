-- ===== src/Performance.antt =====
-- app/services/performance.py and app/repositories/performance.py: snapshots of the account, the cash
-- flows that are found between them, and the time-weighted return. `isfinite` is `math.isfinite`.
pub mod Answered
pub mod Curve
pub mod Detect
pub mod Flows
pub mod Returns
pub mod Settled
use haru_trade_manager.Common.{
  ℕ, suc, ◌+◌, ◌-◌, ◌*◌, String, Bool, true, false, not, ◌&&◌, Option, none, some, List, [], ◌∷◌,
  ◌++◌, map, Act, Outcome, ok, raised, Failure, ErrorKind, sql_error, key_error, value_error,
  other_error, pure, throw, catch, ◌>>=◌, ◌>>◌, if◌then◌else◌, leb, ltb, length, any, filter,
  page_by, Double, le, gt, add, sub, mul, div, of_nat, nought, max_f, sum_f,
}
use haru_trade_manager.Domain.{Datetime}
use haru_trade_manager.Runtime.{beside}
use haru_trade_manager.Paper.{
  Connection, read, commit_row, PaperTables, PaperTrade, since, until, is_value, every_trade,
  list_trades,
}

pub record AccountSnapshot (F : Type 0) : Type 0 where
  pub id : ℕ
  pub snapshot_time : Datetime
  pub snapshot_type : String
  pub total_assets : F
  pub cash : F
  pub stock_value : F
  pub margin_used : F
  pub open_positions : ℕ

pub record CashFlow (F : Type 0) : Type 0 where
  pub id : ℕ
  pub flow_time : Datetime
  pub amount : F
  pub total_before : F
  pub total_after : F
  pub detected_by : String

-- The tables that the service reads and writes, with those of the trades on paper.
pub record Tables (F : Type 0) : Type 0 where
  pub snapshots : List (AccountSnapshot F)
  pub cash_flows : List (CashFlow F)
  pub paper : PaperTables F

-- The filters of the queries; `kind` is `snapshot_type` or `detected_by`.
pub record Period : Type 0 where
  pub start : Option Datetime
  pub end : Option Datetime
  pub kind : Option String

abbrev pub in_period : Period → Datetime → String → Bool
in_period p time kind = since p.start time && until p.end time && is_value p.kind kind

module _ {F : Type 0} where
  -- `list_snapshots`
  unfoldable pub list_snapshots : Period → ℕ → ℕ → Tables F → List (AccountSnapshot F)
  list_snapshots p offset limit t =
      page_by (λ x. x.snapshot_time) offset limit
        (filter (λ x. in_period p x.snapshot_time x.snapshot_type) t.snapshots)

  -- `list_cash_flows`
  unfoldable pub list_cash_flows : Period → ℕ → ℕ → Tables F → List (CashFlow F)
  list_cash_flows p offset limit t =
      page_by (λ x. x.flow_time) offset limit
        (filter (λ x. in_period p x.flow_time x.detected_by) t.cash_flows)

  -- `count_snapshots` and `count_cash_flows`
  unfoldable pub count_snapshots : Period → Tables F → ℕ
  count_snapshots p t =
      length (filter (λ x. in_period p x.snapshot_time x.snapshot_type) t.snapshots)

  unfoldable pub count_cash_flows : Period → Tables F → ℕ
  count_cash_flows p t = length (filter (λ x. in_period p x.flow_time x.detected_by) t.cash_flows)

  -- Within 90 seconds, before or after.
  abbrev pub is_near : Datetime → CashFlow F → Bool
  is_near time flow = leb time (flow.flow_time + 90000000) && leb flow.flow_time (time + 90000000)

  -- `has_cash_flow_near`
  unfoldable pub has_cash_flow_near : Datetime → Tables F → Bool
  has_cash_flow_near time t = any (is_near time) t.cash_flows

  module _ {G : Type 0} (db : Connection G) where
    abbrev pub add_cash_flow : CashFlow F → Act (G × Tables F) (CashFlow F)
    add_cash_flow flow (g, t) =
        let row = record flow { id = suc (length t.cash_flows) } in
        (ok row, (g, record t { cash_flows = t.cash_flows ++ row ∷ [] }))

    -- `create_cash_flow`
    unfoldable pub create_cash_flow : CashFlow F → Act (G × Tables F) (CashFlow F)
    create_cash_flow flow = commit_row db (add_cash_flow flow)

    abbrev pub add_snapshot : AccountSnapshot F → Act (G × Tables F) (AccountSnapshot F)
    add_snapshot snapshot (g, t) =
        let row = record snapshot { id = suc (length t.snapshots) } in
        (ok row, (g, record t { snapshots = t.snapshots ++ row ∷ [] }))

    -- `create_snapshot`
    unfoldable pub create_snapshot : AccountSnapshot F → Act (G × Tables F) (AccountSnapshot F)
    create_snapshot snapshot = commit_row db (add_snapshot snapshot)

-- What a call of the service answers: a value, or the text of the database's failure.
pub data Answer (A : Type 0) : Type 0 where
  answered : A → Answer A
  db_failed : String → Answer A

-- `except SQLAlchemyError as exc: return {"ok": False, …}`
abbrev pub on_failure : {W A : Type 0} → ErrorKind → Failure → Act W (Answer A)
on_failure sql_error exc = pure (db_failed exc.text)
on_failure _ exc = throw exc

abbrev pub guarded : {W A : Type 0} → Act W A → Act W (Answer A)
guarded act = catch (act >>= λ a. pure (answered a)) (λ exc. on_failure exc.kind exc)

-- A page of records: how many there are, and those of the page.
pub record Records (A : Type 0) : Type 0 where
  pub total : ℕ
  pub items : List A

module _ {F : Type 0} {G : Type 0} (db : Connection G) where
  -- `record_snapshot`
  unfoldable pub record_snapshot :
      AccountSnapshot F → Act (G × Tables F) (Answer (AccountSnapshot F))
  unfolding create_snapshot
  record_snapshot snapshot = guarded (beside db.connect >> create_snapshot db snapshot)

  -- `record_cash_flow`
  unfoldable pub record_cash_flow : CashFlow F → Act (G × Tables F) (Answer (CashFlow F))
  unfolding create_cash_flow
  record_cash_flow flow = guarded (beside db.connect >> create_cash_flow db flow)

  -- `list_snapshot_records`
  unfoldable pub list_snapshot_records :
      Period → ℕ → ℕ → Act (G × Tables F) (Answer (Records (AccountSnapshot F)))
  list_snapshot_records p offset limit = guarded (
      beside db.connect >> read db (count_snapshots p) >>= λ total.
      read db (list_snapshots p offset limit) >>= λ items.
      pure (record { total = total; items = items }))

  -- `list_cash_flow_records`
  unfoldable pub list_cash_flow_records :
      Period → ℕ → ℕ → Act (G × Tables F) (Answer (Records (CashFlow F)))
  list_cash_flow_records p offset limit = guarded (
      beside db.connect >> read db (count_cash_flows p) >>= λ total.
      read db (list_cash_flows p offset limit) >>= λ items.
      pure (record { total = total; items = items }))

-- The sum of what the closed trades of a period gained.
module _ {F : Type 0} ⦃d : Double F⦄ where
  abbrev pub is_closed_in : Datetime → Datetime → PaperTrade F → Bool
  is_closed_in start end trade = elim trade.exit_price [
    | none ↦ false
    | some price ↦ elim trade.pnl [
      | none ↦ false
      | some pnl ↦ ltb start trade.created_at && leb trade.created_at end
    ]
  ]

  abbrev pub pnl_of : PaperTrade F → F
  pnl_of trade = elim trade.pnl [ none ↦ nought | some pnl ↦ pnl ]

  -- `_sum_realized_pnl`; the repository lists at most 10000 trades.
  unfoldable pub sum_realized_pnl : Datetime → Datetime → Tables F → F
  sum_realized_pnl start end t = sum_f (
      map pnl_of (
        filter (is_closed_in start end) (
          list_trades (record every_trade { start = some start; end = some end }) 0 10000 false
            t.paper)))
