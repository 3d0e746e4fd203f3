-- ===== src/Tests/PaperReports.antt =====
-- A report on one closed trade, which is too few.
use haru_trade_manager.Common.{ℕ, suc, none, some, [], ◌∷◌, ok, Ensures, ℤ_double, Int.{ℤ, pos}}
use haru_trade_manager.Paper.{Connection, PaperTables}
use haru_trade_manager.PaperReports.{Service, build_report}
use haru_trade_manager.PaperReports.Verdict.{AnswersVerdict, build_report-AnswersVerdict}

abbrev counting : Connection ℕ
counting = record {
  connect = λ n. (ok tt, suc n);
  query = λ n. (ok tt, suc n);
  commit = λ n. (ok tt, suc n);
  refresh = λ n. (ok tt, suc n);
}

abbrev hundred_signals : Service ℤ
hundred_signals = record {
  criteria = record {
    min_signals = 100;
    min_days = 14;
    min_win_rate = pos 1;
    min_sharpe = pos 1;
    max_mdd = pos 1;
    max_position_mismatch = 0;
    max_error_rate = pos 1;
  };
  initial_capital = pos 1000;
  safety_manager = none;
  health = some (10, 0);
  day_of = λ time. time;
  mean = λ xs. pos 0;
  pstdev = λ xs. pos 0;
  sqrt = λ n. pos n;
  show_float = λ x. "";
}

abbrev one_trade : PaperTables ℤ
one_trade = record {
  orders = [];
  trades =
      record {
        id = 1;
        ticker = "005930";
        strategy_id = "default";
        side = "buy";
        entry_price = pos 10;
        exit_price = some (pos 15);
        quantity = pos 1;
        pnl = some (pos 5);
        created_at = 7;
      }
      ∷ [];
}

build_report-AnswersVerdict_example :
    Ensures (AnswersVerdict hundred_signals) (build_report hundred_signals counting (0, one_trade))
build_report-AnswersVerdict_example =
    build_report-AnswersVerdict hundred_signals counting (0, one_trade)
      ((λ g. tt), (λ g. tt), (λ g. tt), (λ g. tt))
