-- ===== src/Performance/Detect.antt =====
-- `detect_cash_flows` of app/services/performance.py.
use haru_trade_manager.Common.{
  Bool, true, false, Option, List, [], ◌∷◌, ◌++◌, Act, pure, ◌>>=◌, ◌>>◌, Double, lt, sub, abs_f,
}
use haru_trade_manager.Domain.{Datetime}
use haru_trade_manager.Runtime.{beside}
use haru_trade_manager.Paper.{Connection, read}
use haru_trade_manager.Performance.{
  AccountSnapshot, CashFlow, Tables, Answer, guarded, list_snapshots, sum_realized_pnl,
  has_cash_flow_near, create_cash_flow,
}
use haru_trade_manager.Performance.Curve.{whole}

module _ {F : Type 0} ⦃d : Double F⦄ where
  -- The change of the assets that no trade explains.
  abbrev pub inferred_flow : AccountSnapshot F → AccountSnapshot F → F → F
  inferred_flow prev curr pnl = sub (sub curr.total_assets prev.total_assets) pnl

  -- `abs(inferred_flow) < threshold`
  abbrev pub is_small : F → AccountSnapshot F → AccountSnapshot F → F → Bool
  is_small threshold prev curr pnl = lt (abs_f (inferred_flow prev curr pnl)) threshold

  abbrev pub flow_row : AccountSnapshot F → F → CashFlow F
  flow_row curr flow = record {
    id = 0;
    flow_time = curr.snapshot_time;
    amount = flow;
    total_before = sub curr.total_assets flow;
    total_after = curr.total_assets;
    detected_by = "auto";
  }

  module _ {G : Type 0} (db : Connection G) (threshold : F) where
    -- The flow is written, unless there is one near.
    unfoldable pub write_flow :
        AccountSnapshot F → F → Bool → Act (G × Tables F) (List (CashFlow F))
    unfolding create_cash_flow
    write_flow curr flow true = pure []
    write_flow curr flow false = create_cash_flow db (flow_row curr flow) >>= λ row. pure (row ∷ [])

    unfoldable pub detect_if : AccountSnapshot F → F → Bool → Act (G × Tables F) (List (CashFlow F))
    unfolding write_flow
    detect_if curr flow true = pure []
    detect_if curr flow false =
        read db (has_cash_flow_near curr.snapshot_time) >>= write_flow curr flow

    -- One round of the loop: the flow that is written, if any.
    unfoldable pub detect_one :
        AccountSnapshot F → AccountSnapshot F → Act (G × Tables F) (List (CashFlow F))
    unfolding detect_if
    detect_one prev curr =
        read db (sum_realized_pnl prev.snapshot_time curr.snapshot_time) >>= λ pnl.
        detect_if curr (inferred_flow prev curr pnl) (is_small threshold prev curr pnl)

    unfoldable pub detect_from :
        AccountSnapshot F → List (AccountSnapshot F) → Act (G × Tables F) (List (CashFlow F))
    unfolding detect_one
    detect_from prev [] = pure []
    detect_from prev (curr ∷ snapshots) = detect_one prev curr >>= λ found.
        detect_from curr snapshots >>= λ more. pure (found ++ more)

    unfoldable pub detect_all : List (AccountSnapshot F) → Act (G × Tables F) (List (CashFlow F))
    unfolding detect_from
    detect_all [] = pure []
    detect_all (first ∷ snapshots) = detect_from first snapshots

    -- `detect_cash_flows`
    unfoldable pub detect_cash_flows :
        Option Datetime → Option Datetime → Act (G × Tables F) (Answer (List (CashFlow F)))
    unfolding detect_all
    detect_cash_flows start end =
        guarded
          (beside db.connect >> read db (list_snapshots (whole start end) 0 5000) >>= detect_all)
