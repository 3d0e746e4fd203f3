-- ===== src/PaperReports.antt =====
-- app/services/paper_report.py: the report on the trades on paper, with the criteria that a strategy
-- passes before it trades for real.
pub mod Verdict
use text.Mathlib.Text.{◌==◌ as str_eq}
use haru_trade_manager.Common.{
  ℕ, zero, suc, ◌+◌, ◌-◌, max, min, String, Bool, true, false, not, ◌&&◌, Option, none, some, List,
  [], ◌∷◌, ◌++◌, map, Act, pure, ◌>>=◌, ◌>>◌, if◌then◌else◌, leb, length, filter, sort_by, fstring,
  show, Double, le, lt, gt, ge, eq, add, sub, mul, div, of_nat, nought, max_f, sum_f,
}
use haru_trade_manager.Domain.{Datetime}
use haru_trade_manager.Runtime.{beside, RuntimeEvent, SafetyManager, latest_events}
use haru_trade_manager.Paper.{Connection, read, PaperTables, PaperTrade, every_trade, list_trades}
use haru_trade_manager.Performance.{Answer, guarded}

-- `PaperPassCriteria`
pub record Criteria (F : Type 0) : Type 0 where
  pub min_signals : ℕ
  pub min_days : ℕ
  pub min_win_rate : F
  pub min_sharpe : F
  pub max_mdd : F
  pub max_position_mismatch : ℕ
  pub max_error_rate : F

pub record Metrics (F : Type 0) : Type 0 where
  pub total_signals : ℕ
  pub operating_days : ℕ
  pub closed_trades : ℕ
  pub win_rate : F
  pub sharpe_ratio : F
  pub mdd : F
  pub expected_value : F
  pub total_pnl : F
  pub position_mismatch_count : ℕ
  pub error_rate : F

-- The value of a criterion.
pub data Value (F : Type 0) : Type 0 where
  count : ℕ → Value F
  ratio : F → Value F

pub record Criterion (F : Type 0) : Type 0 where
  pub key : String
  pub passed : Bool
  pub value : Value F
  pub threshold : String

pub record Report (F : Type 0) : Type 0 where
  pub passed : Bool
  pub metrics : Metrics F
  pub criteria : List (Criterion F)

-- The service: its criteria and capital, the manager and the counters of the cycles and of their
-- errors, where it has them; and of Python the number of a day, `statistics.mean` and `pstdev` of two
-- floats or more, `math.sqrt` of a count, and the text of a float.
pub record Service (F : Type 0) : Type 0 where
  pub criteria : Criteria F
  pub initial_capital : F
  pub safety_manager : Option SafetyManager
  pub health : Option (ℕ × ℕ)
  pub day_of : Datetime → ℕ
  pub mean : List F → F
  pub pstdev : List F → F
  pub sqrt : ℕ → F
  pub show_float : F → String

-- `min(t.created_at for t in trades)`, over the first and the rest, and `max`
abbrev pub first_time : {F : Type 0} → Datetime → List (PaperTrade F) → Datetime
first_time time [] = time
first_time time (t ∷ trades) = first_time (min time t.created_at) trades

abbrev pub last_time : {F : Type 0} → Datetime → List (PaperTrade F) → Datetime
last_time time [] = time
last_time time (t ∷ trades) = last_time (max time t.created_at) trades

abbrev pub mismatches : Option SafetyManager → ℕ
mismatches none = 0
mismatches (some manager) =
    length (filter (λ e. str_eq e.code "position_mismatch") (latest_events 1000 manager))

module _ {F : Type 0} ⦃d : Double F⦄ where
  abbrev pub or_nought : Option F → F
  or_nought none = nought
  or_nought (some x) = x

  -- `t.exit_price is not None and t.pnl is not None`
  abbrev pub is_closed : PaperTrade F → Bool
  is_closed t = elim t.exit_price [
    | none ↦ false
    | some price ↦ elim t.pnl [ none ↦ false | some pnl ↦ true ]
  ]

  abbrev pub is_win : PaperTrade F → Bool
  is_win t = gt (or_nought t.pnl) nought

  abbrev pub per : F → ℕ → F
  per x zero = nought
  per x (suc n) = div x (of_nat (suc n))

  -- The returns of the trades that cost something.
  unfoldable pub returns_of : List (PaperTrade F) → List F
  returns_of [] = []
  returns_of (t ∷ closed) =
      let rest = returns_of closed in
      let base = mul t.entry_price t.quantity in
      if le base nought then rest else div (or_nought t.pnl) base ∷ rest

  -- The loop of `_max_drawdown`.
  unfoldable pub run_equity : List (PaperTrade F) → F → F → F → F
  run_equity [] equity peak max_dd = max_dd
  run_equity (t ∷ trades) equity peak max_dd =
      let equity' = add equity (or_nought t.pnl) in
      let peak' = max_f peak equity' in
      run_equity trades equity' peak'
        (if gt peak' nought then max_f max_dd (div (sub peak' equity') peak') else max_dd)

  -- `_max_drawdown`; without trades the loop leaves 0.
  unfoldable pub max_drawdown : F → List (PaperTrade F) → F
  unfolding run_equity
  max_drawdown capital closed =
      run_equity (sort_by (λ t. t.created_at) closed) capital capital nought

  abbrev pub error_rate_of : Option (ℕ × ℕ) → F
  error_rate_of none = nought
  error_rate_of (some (cycles, errors)) = per (of_nat errors) cycles

  module _ (s : Service F) where
    -- `_sharpe_ratio`
    unfoldable pub sharpe_ratio : List F → F
    sharpe_ratio (x ∷ y ∷ rest) =
        let returns = x ∷ y ∷ rest in
        let avg = s.mean returns in
        let std = s.pstdev returns in
        if eq std nought
        then if gt avg nought then of_nat 10 else nought
        else mul (div avg std) (s.sqrt (length returns))
    sharpe_ratio returns = nought

    -- `(last.date() - first.date()).days + 1`
    abbrev pub operating_days : List (PaperTrade F) → ℕ
    operating_days [] = 0
    operating_days (t ∷ trades) =
        suc (s.day_of (last_time t.created_at trades) - s.day_of (first_time t.created_at trades))

    -- `_compute_metrics`
    unfoldable pub compute_metrics : List (PaperTrade F) → Metrics F
    unfolding sharpe_ratio returns_of max_drawdown
    compute_metrics trades =
        let closed = filter is_closed trades in
        let total_pnl = sum_f (map (λ t. or_nought t.pnl) closed) in
        record {
          total_signals = length trades;
          operating_days = operating_days trades;
          closed_trades = length closed;
          win_rate = per (of_nat (length (filter is_win closed))) (length closed);
          sharpe_ratio = sharpe_ratio (returns_of closed);
          mdd = max_drawdown s.initial_capital closed;
          expected_value = per total_pnl (length closed);
          total_pnl = total_pnl;
          position_mismatch_count = mismatches s.safety_manager;
          error_rate = error_rate_of s.health;
        }

    -- `_criterion`
    abbrev pub criterion : String → Bool → Value F → String → Criterion F
    criterion key passed value threshold = record {
      key = key;
      passed = passed;
      value = value;
      threshold = threshold;
    }

    abbrev pub limit_of : String → String → String
    limit_of sign text = fstring (sign ∷ text ∷ [])

    -- `_check_criteria`
    unfoldable pub check_criteria : Metrics F → List (Criterion F)
    check_criteria m =
        let c = s.criteria in
        criterion "min_signals" (leb c.min_signals m.total_signals) (count m.total_signals)
          (limit_of ">=" (show c.min_signals))
        ∷ criterion "min_operating_days" (leb c.min_days m.operating_days) (count m.operating_days)
            (limit_of ">=" (show c.min_days))
        ∷ criterion "win_rate" (ge m.win_rate c.min_win_rate) (ratio m.win_rate)
            (limit_of ">=" (s.show_float c.min_win_rate))
        ∷ criterion "sharpe_ratio" (ge m.sharpe_ratio c.min_sharpe) (ratio m.sharpe_ratio)
            (limit_of ">=" (s.show_float c.min_sharpe))
        ∷ criterion "mdd" (le m.mdd c.max_mdd) (ratio m.mdd)
            (limit_of "<=" (s.show_float c.max_mdd))
        ∷ criterion "position_mismatch_count"
            (leb m.position_mismatch_count c.max_position_mismatch)
            (count m.position_mismatch_count) (limit_of "<=" (show c.max_position_mismatch))
        ∷ criterion "error_rate" (lt m.error_rate c.max_error_rate) (ratio m.error_rate)
            (limit_of "<" (s.show_float c.max_error_rate))
        ∷ []

    -- `all(item["pass"] for item in checks)`
    abbrev pub all_passed : List (Criterion F) → Bool
    all_passed [] = true
    all_passed (c ∷ checks) = c.passed && all_passed checks

    unfoldable pub report_of : List (PaperTrade F) → Report F
    unfolding compute_metrics check_criteria
    report_of trades =
        let metrics = compute_metrics trades in
        let checks = check_criteria metrics in
        record { passed = all_passed checks; metrics = metrics; criteria = checks }

    -- `build_report`
    unfoldable pub build_report :
        {G : Type 0} → Connection G → Act (G × PaperTables F) (Answer (Report F))
    unfolding report_of
    build_report db = guarded (
        beside db.connect >> read db (list_trades every_trade 0 10000 false) >>= λ trades.
        pure (report_of trades))
