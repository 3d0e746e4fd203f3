-- ===== src/Performance/Curve.antt =====
-- `twr_report`, `equity_curve` and `_compute_twr` of app/services/performance.py.
use haru_trade_manager.Common.{
  ℕ, ◌-◌, Bool, not, ◌&&◌, Option, none, some, List, [], ◌∷◌, map, Act, pure, ◌>>=◌, ◌>>◌,
  if◌then◌else◌, leb, ltb, length, filter, Double, le, gt, add, sub, mul, div, of_nat, nought,
  max_f, sum_f,
}
use haru_trade_manager.Domain.{Datetime}
use haru_trade_manager.Runtime.{beside}
use haru_trade_manager.Paper.{Connection, read}
use haru_trade_manager.Performance.{
  AccountSnapshot, CashFlow, Tables, Period, Answer, guarded, list_snapshots, list_cash_flows,
  sum_realized_pnl,
}

pub record CurveItem (F : Type 0) : Type 0 where
  pub snapshot : AccountSnapshot F
  pub cumulative_pnl : F
  pub period_return : F
  pub twr : F

pub record TwrReport (F : Type 0) : Type 0 where
  pub twr : F
  pub twr_pct : F
  pub period_count : ℕ
  pub cash_flow_count : ℕ
  pub cumulative_pnl : F
  pub realized_trade_pnl : F
  pub account_drift : F

-- What the loop of `equity_curve` changes: the flows that `cf_idx` has not passed, and the rest.
pub record CurveState (F : Type 0) : Type 0 where
  pub pending : List (CashFlow F)
  pub cumulative_flow : F
  pub baseline_adjusted : Option F
  pub twr_compound : F
  pub prev : Option (AccountSnapshot F)

abbrev pub whole : Option Datetime → Option Datetime → Period
whole start end = record { start = start; end = end; kind = none }

module _ {F : Type 0} ⦃d : Double F⦄ where
  abbrev pub amounts : List (CashFlow F) → List F
  amounts = map (λ x. x.amount)

  -- `sum(cf.amount for cf in cash_flows if prev.snapshot_time < cf.flow_time <= curr.snapshot_time)`
  abbrev pub flow_between : List (CashFlow F) → AccountSnapshot F → AccountSnapshot F → F
  flow_between flows prev curr = sum_f (
      amounts (
        filter (λ x. ltb prev.snapshot_time x.flow_time && leb x.flow_time curr.snapshot_time)
          flows))

  -- `(curr.total_assets - flow) / prev.total_assets`
  abbrev pub gross_of : List (CashFlow F) → AccountSnapshot F → AccountSnapshot F → F
  gross_of flows prev curr =
      div (sub curr.total_assets (flow_between flows prev curr)) prev.total_assets

  module _ (isfinite : F → Bool) where
    -- The loop of `_compute_twr`, over each snapshot and the one before.
    unfoldable pub compound_from :
        List (CashFlow F) → F → AccountSnapshot F → List (AccountSnapshot F) → F
    compound_from flows compound prev [] = compound
    compound_from flows compound prev (curr ∷ snapshots) =
        compound_from flows
          (if le prev.total_assets nought
            then compound
            else if not (isfinite (gross_of flows prev curr))
            then compound
            else mul compound (max_f (gross_of flows prev curr) nought))
          curr snapshots

    -- `_compute_twr`
    unfoldable pub compute_twr : List (AccountSnapshot F) → List (CashFlow F) → F
    unfolding compound_from
    compute_twr [] flows = sub (of_nat 1) (of_nat 1)
    compute_twr (first ∷ snapshots) flows =
        sub (compound_from flows (of_nat 1) first snapshots) (of_nat 1)

  -- The `while` loop: the flows up to a time are added.
  unfoldable pub pass_flows : Datetime → List (CashFlow F) → F → F × List (CashFlow F)
  pass_flows time [] total = (total, [])
  pass_flows time (flow ∷ flows) total =
      let rest = pass_flows time flows (add total flow.amount) in
      if leb flow.flow_time time then rest else (total, flow ∷ flows)

  abbrev pub or_first : Option F → F → F
  or_first none first = first
  or_first (some baseline) first = baseline

  -- The return of a period, and the compound return after it.
  abbrev pub return_of :
      List (CashFlow F) → Option (AccountSnapshot F) → AccountSnapshot F → F → F × F
  return_of flows none snap compound = (nought, compound)
  return_of flows (some prev) snap compound =
      if gt prev.total_assets nought
      then (
        sub (gross_of flows prev snap) (of_nat 1),
        mul compound (max_f (gross_of flows prev snap) nought),
      )
      else (nought, compound)

  -- One round of the loop.
  unfoldable pub curve_step :
      List (CashFlow F) → AccountSnapshot F → CurveState F → CurveItem F × CurveState F
  unfolding pass_flows
  curve_step flows snap s =
      let (cumulative_flow, pending) = pass_flows snap.snapshot_time s.pending s.cumulative_flow in
      let adjusted_assets = sub snap.total_assets cumulative_flow in
      let baseline = or_first s.baseline_adjusted adjusted_assets in
      let (period_return, compound) = return_of flows s.prev snap s.twr_compound in
      (
        record {
          snapshot = snap;
          cumulative_pnl = sub adjusted_assets baseline;
          period_return = period_return;
          twr = sub compound (of_nat 1);
        },
        record {
          pending = pending;
          cumulative_flow = cumulative_flow;
          baseline_adjusted = some baseline;
          twr_compound = compound;
          prev = some snap;
        },
      )

  unfoldable pub curve_items :
      List (CashFlow F) → List (AccountSnapshot F) → CurveState F → List (CurveItem F) × F
  unfolding curve_step
  curve_items flows [] s = ([], s.twr_compound)
  curve_items flows (snap ∷ snapshots) s =
      let (item, s') = curve_step flows snap s in
      let (items, compound) = curve_items flows snapshots s' in (item ∷ items, compound)

  abbrev pub curve_start : List (CashFlow F) → CurveState F
  curve_start flows = record {
    pending = flows;
    cumulative_flow = nought;
    baseline_adjusted = none;
    twr_compound = of_nat 1;
    prev = none;
  }

  -- The items of `equity_curve` with the return of its `meta`; without snapshots the answer has no
  -- return, which is then 0 here.
  unfoldable pub curve_of : List (AccountSnapshot F) → List (CashFlow F) → List (CurveItem F) × F
  unfolding curve_items
  curve_of snapshots flows =
      let (items, compound) = curve_items flows snapshots (curve_start flows) in
      (items, sub compound (of_nat 1))

  abbrev pub last_snapshot : AccountSnapshot F → List (AccountSnapshot F) → AccountSnapshot F
  last_snapshot first [] = first
  last_snapshot first (next ∷ snapshots) = last_snapshot next snapshots

  -- What `twr_report` says of two snapshots or more, where the trades gained `realized`.
  unfoldable pub report_of :
      (F → Bool)
      → AccountSnapshot F
      → AccountSnapshot F
      → List (AccountSnapshot F)
      → List (CashFlow F)
      → F
      → TwrReport F
  unfolding compute_twr
  report_of isfinite first second snapshots flows realized =
      let all = first ∷ second ∷ snapshots in
      let twr = compute_twr isfinite all flows in
      let last = last_snapshot second snapshots in
      let cumulative_pnl = sub (sub last.total_assets first.total_assets) (sum_f (amounts flows)) in
      record {
        twr = twr;
        twr_pct = mul twr (of_nat 100);
        period_count = length all - 1;
        cash_flow_count = length flows;
        cumulative_pnl = cumulative_pnl;
        realized_trade_pnl = realized;
        account_drift = sub cumulative_pnl realized;
      }

  abbrev pub empty_report : List (AccountSnapshot F) → List (CashFlow F) → TwrReport F
  empty_report snapshots flows = record {
    twr = nought;
    twr_pct = nought;
    period_count = length snapshots - 1;
    cash_flow_count = length flows;
    cumulative_pnl = nought;
    realized_trade_pnl = nought;
    account_drift = nought;
  }

  module _ {G : Type 0} (db : Connection G) where
    unfoldable pub twr_from :
        (F → Bool) → List (AccountSnapshot F) → List (CashFlow F) → Act (G × Tables F) (TwrReport F)
    unfolding report_of
    twr_from isfinite (first ∷ second ∷ snapshots) flows =
        read db
          (sum_realized_pnl first.snapshot_time (last_snapshot second snapshots).snapshot_time)
        >>= λ realized. pure (report_of isfinite first second snapshots flows realized)
    twr_from isfinite snapshots flows = pure (empty_report snapshots flows)

    -- `twr_report`; the queries list at most 5000 rows.
    unfoldable pub twr_report :
        (F → Bool) → Option Datetime → Option Datetime → Act (G × Tables F) (Answer (TwrReport F))
    unfolding twr_from
    twr_report isfinite start end = guarded (
        beside db.connect >> read db (list_snapshots (whole start end) 0 5000) >>= λ snapshots.
        read db (list_cash_flows (whole start end) 0 5000) >>= λ flows.
        twr_from isfinite snapshots flows)

    -- `equity_curve`
    unfoldable pub equity_curve :
        Option Datetime → Option Datetime → Act (G × Tables F) (Answer (List (CurveItem F) × F))
    unfolding curve_of
    equity_curve start end = guarded (
        beside db.connect >> read db (list_snapshots (whole start end) 0 5000) >>= λ snapshots.
        read db (list_cash_flows (whole start end) 0 5000) >>= λ flows.
        pure (curve_of snapshots flows))
