-- ===== src/Tests/Performance.antt =====
-- An account that gains 5 by a trade and gets 100 from outside.
use haru_trade_manager.Common.{
  ◌≡◌,
  refl,
  ℕ,
  suc,
  true,
  none,
  some,
  List,
  [],
  ◌∷◌,
  ok,
  Ensures,
  ℤ_double,
  ℤ-IsOrdered,
  Int.{ℤ, pos},
}
use haru_trade_manager.Paper.{Connection, PaperTrade, Steady.{}}
use haru_trade_manager.Performance.{
  AccountSnapshot, CashFlow, Tables, list_snapshots, list_cash_flows,
}
use haru_trade_manager.Performance.Curve.{whole, curve_of, compute_twr}
use haru_trade_manager.Performance.Flows.{pnls, gains_of, curve-gains}
use haru_trade_manager.Performance.Returns.{curve_of-compute_twr}
use haru_trade_manager.Performance.Detect.{detect_cash_flows}
use haru_trade_manager.Performance.Settled.{IsIdle, detect_cash_flows-idempotent}

abbrev snapshot_at : ℕ → ℤ → AccountSnapshot ℤ
snapshot_at time total = record {
  id = 1;
  snapshot_time = time;
  snapshot_type = "close";
  total_assets = total;
  cash = total;
  stock_value = pos 0;
  margin_used = pos 0;
  open_positions = 0;
}

abbrev snapshots : List (AccountSnapshot ℤ)
snapshots = snapshot_at 900000000 (pos 205) ∷ snapshot_at 100000000 (pos 100) ∷ []

abbrev flows : List (CashFlow ℤ)
flows =
    record {
      id = 1;
      flow_time = 800000000;
      amount = pos 100;
      total_before = pos 105;
      total_after = pos 205;
      detected_by = "manual";
    }
    ∷ []

abbrev trade : PaperTrade ℤ
trade = record {
  id = 1;
  ticker = "005930";
  strategy_id = "default";
  side = "buy";
  entry_price = pos 10;
  exit_price = some (pos 15);
  quantity = pos 1;
  pnl = some (pos 5);
  created_at = 500000000;
}

abbrev account : List (CashFlow ℤ) → Tables ℤ
account cash_flows = record {
  snapshots = snapshots;
  cash_flows = cash_flows;
  paper = record { orders = []; trades = trade ∷ [] };
}

-- A database that counts its calls.
abbrev counting : Connection ℕ
counting = record {
  connect = λ n. (ok tt, suc n);
  query = λ n. (ok tt, suc n);
  commit = λ n. (ok tt, suc n);
  refresh = λ n. (ok tt, suc n);
}

curve-gains_example :
    pnls
      (curve_of
        (list_snapshots (whole none none) 0 5000 (account flows))
        (list_cash_flows (whole none none) 0 5000 (account flows))).0
    ≡ gains_of
        (list_snapshots (whole none none) 0 5000 (account flows))
        (list_cash_flows (whole none none) 0 5000 (account flows))
curve-gains_example = curve-gains none none (account flows)

curve_of-compute_twr_example :
    (curve_of snapshots flows).1 ≡ compute_twr (λ x. true) snapshots flows
curve_of-compute_twr_example =
    curve_of-compute_twr ℤ-IsOrdered (λ x. true) snapshots flows (refl, refl, tt)

detect_cash_flows-idempotent_example :
    Ensures
      (λ _ w'.
        Ensures
          (IsIdle counting (pos 50) none none w'.1)
          (detect_cash_flows counting (pos 50) none none w'))
      (detect_cash_flows counting (pos 50) none none (0, account []))
detect_cash_flows-idempotent_example =
    detect_cash_flows-idempotent counting (pos 50) none none (0, account [])
      ((λ g. tt), (λ g. tt), (λ g. tt), (λ g. tt))
