-- ===== src/Tests/StrategyPerformance.antt =====
-- Trades of two strategies, of which one has too few.
use haru_trade_manager.Common.{
  ◌≡◌,
  true,
  none,
  some,
  List,
  [],
  ◌∷◌,
  ok,
  ℤ_double,
  ℤ-IsOrdered,
  Int.{ℤ, pos, negsuc},
}
use haru_trade_manager.StrategyPerformance.{PaperTrade, Query, Report, report}
use haru_trade_manager.StrategyPerformance.Page.{IsPage, report-IsPage}

abbrev two_or_more : Query ℤ
two_or_more = record {
  strategy_query = none;
  offset = 0;
  limit = 0;
  min_trades = 2;
  sort_by = "trades";
  sort_order = "desc";
  lower = λ s. s;
  contains = λ q s. true;
  before = λ s t. true;
  minus_infinity = negsuc 1000000;
}

abbrev paper_trades : List (PaperTrade ℤ)
paper_trades =
    record { strategy_id = "1"; exit_price = some (pos 11); pnl = some (pos 1) }
    ∷ record { strategy_id = "2"; exit_price = some (pos 9); pnl = some (negsuc 0) }
    ∷ record { strategy_id = "1"; exit_price = some (pos 9); pnl = some (negsuc 1) }
    ∷ record { strategy_id = "1"; exit_price = none; pnl = none }
    ∷ []

report-IsPage_example :
    (r : Report ℤ) × (report two_or_more (ok paper_trades) ≡ ok r) × IsPage two_or_more r
report-IsPage_example = report-IsPage ℤ-IsOrdered two_or_more paper_trades
