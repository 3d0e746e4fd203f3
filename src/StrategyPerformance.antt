-- ===== src/StrategyPerformance.antt =====
-- app/services/strategy_performance.py: the closed paper trades by strategy, their metrics, and a
-- sorted page of them. The rows that the repository lists, `str.lower`, the order of texts and the
-- infinity are arguments.
pub mod Page
use text.Mathlib.Text.{◌==◌ as str_eq}
use haru_trade_manager.Common.{
  ℕ, zero, suc, ◌+◌, max, String, Bool, true, false, not, ◌&&◌, Option, none, some, List, [], ◌∷◌,
  ◌++◌, Outcome, ok, raised, Failure, ErrorKind, sql_error, key_error, value_error, other_error,
  if◌then◌else◌, ltb, leb, length, drop, take, strip, truthy, Dict, lookup, insert, Double, gt, lt,
  add, div, abs_f, of_nat, nought, sum_f,
}

pub record PaperTrade (F : Type 0) : Type 0 where
  pub strategy_id : String
  pub exit_price : Option F
  pub pnl : Option F

pub record StrategyMetrics (F : Type 0) : Type 0 where
  pub strategy_id : String
  pub trades : ℕ
  pub wins : ℕ
  pub losses : ℕ
  pub win_rate : F
  pub total_pnl : F
  pub avg_pnl : F
  pub expectancy : F
  pub payoff_ratio : Option F
  pub profit_factor : Option F

-- The arguments of `report`, after `max(…, 0)`, and what of Python's texts and floats it uses:
-- `contains q s` is `q in s`, `before s t` is `s < t`.
pub record Query (F : Type 0) : Type 0 where
  pub strategy_query : Option String
  pub offset : ℕ
  pub limit : ℕ
  pub min_trades : ℕ
  pub sort_by : String
  pub sort_order : String
  pub lower : String → String
  pub contains : String → String → Bool
  pub before : String → String → Bool
  pub minus_infinity : F

pub data Report (F : Type 0) : Type 0 where
  page : List (StrategyMetrics F) → ℕ → ℕ → ℕ → Report F
  no_report : String → Report F

module _ {F : Type 0} ⦃d : Double F⦄ where
  -- `if trade.exit_price is None or trade.pnl is None: continue`
  abbrev pub closed_pnl : PaperTrade F → Option F
  closed_pnl trade = elim trade.exit_price [ none ↦ none | some price ↦ trade.pnl ]

  abbrev pub or_empty : Option (List F) → List F
  or_empty none = []
  or_empty (some pnls) = pnls

  abbrev pub add_pnl : String → Option F → Dict (List F) → Dict (List F)
  add_pnl strategy_id none grouped = grouped
  add_pnl strategy_id (some pnl) grouped =
      insert strategy_id (or_empty (lookup strategy_id grouped) ++ pnl ∷ []) grouped

  -- The profits of the closed trades, by strategy.
  unfoldable pub group : List (PaperTrade F) → Dict (List F) → Dict (List F)
  group [] grouped = grouped
  group (trade ∷ trades) grouped =
      group trades (add_pnl trade.strategy_id (closed_pnl trade) grouped)

  unfoldable pub filtered : (F → Bool) → List F → List F
  filtered test [] = []
  filtered test (x ∷ xs) = let rest = filtered test xs in if test x then x ∷ rest else rest

  abbrev pub per : F → ℕ → F
  per x n = if ltb 0 n then div x (of_nat n) else nought

  abbrev pub ratio_of : F → F → Option F
  ratio_of x y = if gt y nought then some (div x y) else none

  -- `_compute`
  unfoldable pub compute : String → List F → StrategyMetrics F
  unfolding filtered
  compute strategy_id pnls =
      let trades = length pnls in
      let wins = length (filtered (λ x. gt x nought) pnls) in
      let losses = length (filtered (λ x. lt x nought) pnls) in
      let gross_profit = sum_f (filtered (λ x. gt x nought) pnls) in
      let gross_loss_abs = abs_f (sum_f (filtered (λ x. lt x nought) pnls)) in
      record {
        strategy_id = strategy_id;
        trades = trades;
        wins = wins;
        losses = losses;
        win_rate = per (of_nat wins) trades;
        total_pnl = sum_f pnls;
        avg_pnl = per (sum_f pnls) trades;
        expectancy = per (sum_f pnls) trades;
        payoff_ratio = ratio_of (per gross_profit wins) (per gross_loss_abs losses);
        profit_factor = ratio_of gross_profit gross_loss_abs;
      }

  abbrev pub compute_all : Dict (List F) → List (StrategyMetrics F)
  unfolding compute
  compute_all [] = []
  compute_all ((strategy_id, pnls) ∷ grouped) = compute strategy_id pnls ∷ compute_all grouped

  -- `[x for x in metrics if …]`
  unfoldable pub keep_if :
      (StrategyMetrics F → Bool) → List (StrategyMetrics F) → List (StrategyMetrics F)
  keep_if test [] = []
  keep_if test (m ∷ metrics) = let rest = keep_if test metrics in if test m then m ∷ rest else rest

  abbrev pub or_low : F → Option F → F
  or_low low none = low
  or_low low (some x) = x

  -- `_sort_value`
  unfoldable pub sort_value : Query F → StrategyMetrics F → F
  sort_value q m =
      let key = q.lower (strip q.sort_by) in
      if str_eq key "trades"
      then of_nat m.trades
      else if str_eq key "wins"
      then of_nat m.wins
      else if str_eq key "losses"
      then of_nat m.losses
      else if str_eq key "win_rate"
      then m.win_rate
      else if str_eq key "avg_pnl"
      then m.avg_pnl
      else if str_eq key "expectancy"
      then m.expectancy
      else if str_eq key "payoff_ratio"
      then or_low q.minus_infinity m.payoff_ratio
      else if str_eq key "profit_factor"
      then or_low q.minus_infinity m.profit_factor
      else m.total_pnl

  -- Whether a row sorts before another, by the key of the query; a reversed sort turns it round.
  abbrev pub sorts_before : Query F → StrategyMetrics F → StrategyMetrics F → Bool
  unfolding sort_value
  sorts_before q a b =
      if str_eq (q.lower (strip q.sort_by)) "strategy_id"
      then q.before a.strategy_id b.strategy_id
      else lt (sort_value q a) (sort_value q b)

  abbrev pub precedes : Query F → StrategyMetrics F → StrategyMetrics F → Bool
  precedes q a b =
      if str_eq (q.lower q.sort_order) "asc" then sorts_before q a b else sorts_before q b a

  -- The sort keeps rows of equal keys in their order, also where it is reversed.
  unfoldable pub place :
      Query F → StrategyMetrics F → List (StrategyMetrics F) → List (StrategyMetrics F)
  unfolding sorts_before
  place q m [] = m ∷ []
  place q m (other ∷ metrics) =
      let rest = place q m metrics in
      if precedes q other m then other ∷ rest else m ∷ other ∷ metrics

  unfoldable pub sorted : Query F → List (StrategyMetrics F) → List (StrategyMetrics F)
  unfolding place
  sorted q [] = []
  sorted q (m ∷ metrics) = place q m (sorted q metrics)

  abbrev pub matches : Query F → Option String → StrategyMetrics F → Bool
  matches q none m = true
  matches q (some text) m =
      if truthy (strip text)
      then q.contains (q.lower (strip text)) (q.lower m.strategy_id)
      else true

  -- The rows of the report, before the page is cut out.
  unfoldable pub selected : Query F → List (PaperTrade F) → List (StrategyMetrics F)
  unfolding group compute_all keep_if sorted
  selected q trades = sorted q (
      keep_if (matches q q.strategy_query)
        (keep_if (λ m. leb q.min_trades m.trades) (compute_all (group trades []))))

  abbrev pub page_of : Query F → List (StrategyMetrics F) → Report F
  page_of q metrics =
      page (take (max q.limit 1) (drop q.offset metrics)) (length metrics) q.offset (max q.limit 1)

  -- `except SQLAlchemyError as exc`
  abbrev pub on_failure : ErrorKind → Failure → Outcome (Report F)
  on_failure sql_error exc = ok (no_report exc.text)
  on_failure _ exc = raised exc

  -- `report`, of what the repository gives
  unfoldable pub report : Query F → Outcome (List (PaperTrade F)) → Outcome (Report F)
  unfolding selected
  report q (ok trades) = ok (page_of q (selected q trades))
  report q (raised exc) = on_failure exc.kind exc
