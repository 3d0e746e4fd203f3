-- ===== src/PaperReports/Verdict.antt =====
-- When the report says that the criteria are passed.
use haru_trade_manager.Common.{
  ◌≡◌, refl, ◌↔◌, ℕ, zero, suc, ◌≤◌, arith, Bool, true, false, ◌&&◌, List, [], ◌∷◌, ok, pure, ◌>>=◌,
  ◌>>◌, leb, length, take, filter, page_by, Ensures, Ensures-bind, Double, ◌≼◌, lt, if_then_else-P,
}
use haru_trade_manager.Runtime.{beside}
use haru_trade_manager.Paper.{
  Connection,
  read,
  PaperTables,
  PaperTrade,
  every_trade,
  list_trades,
  Steady.{IsSteady, beside-Ensures},
}
use haru_trade_manager.Performance.{Answer, answered}
use haru_trade_manager.Performance.Answered.{guarded-Ensures}
use haru_trade_manager.PaperReports.{
  Criteria, Metrics, Report, Service, is_closed, compute_metrics, check_criteria, report_of,
  build_report,
}

module _ {F : Type 0} ⦃d : Double F⦄ (s : Service F) where
  -- The seven conditions.
  abbrev pub IsMet : Criteria F → Metrics F → Type 0
  IsMet c m =
      (c.min_signals ≤ m.total_signals)
      × (c.min_days ≤ m.operating_days)
      × (c.min_win_rate ≼ m.win_rate)
      × (c.min_sharpe ≼ m.sharpe_ratio)
      × (m.mdd ≼ c.max_mdd)
      × (m.position_mismatch_count ≤ c.max_position_mismatch)
      × (lt m.error_rate c.max_error_rate ≡ true)

  -- Seven tests, of which three compare counts.
  seven :
      (a b c d' e f : ℕ) (p q r t : Bool)
      → ((leb a b && (leb c d' && (p && (q && (r && (leb e f && (t && true)))))) ≡ true)
          ↔ ((a ≤ b) × (c ≤ d') × (p ≡ true) × (q ≡ true) × (r ≡ true) × (e ≤ f) × (t ≡ true)))
  seven a b c d' e f p q r t = ground arith

  report_of-passed :
      (trades : List (PaperTrade F))
      → ((report_of s trades).passed ≡ true) ↔ IsMet s.criteria (compute_metrics s trades)
  unfolding report_of check_criteria
  report_of-passed trades = seven _ _ _ _ _ _ _ _ _ _

  length-filter :
      (test : PaperTrade F → Bool) (trades : List (PaperTrade F))
      → length (filter test trades) ≤ length trades
  unfolding filter
  length-filter test [] = omega arith
  length-filter test (t ∷ trades) =
      let rest = length-filter test trades in
      if_then_else-P (λ xs. length xs ≤ suc (length trades)) (test t) (t ∷ filter test trades)
        (filter test trades) (λ _. omega (arith, rest)) (λ _. omega (arith, rest))

  length-take : (n : ℕ) (trades : List (PaperTrade F)) → length (take n trades) ≤ n
  length-take zero trades = omega arith
  length-take (suc n) [] = omega arith
  length-take (suc n) (t ∷ trades) = omega (arith, length-take n trades)

  -- The verdict on the criteria, and counts of at most 10000 trades.
  abbrev pub IsVerdict : Report F → Type 0
  IsVerdict r =
      ((r.passed ≡ true) ↔ IsMet s.criteria r.metrics)
      × (r.metrics.closed_trades ≤ r.metrics.total_signals)
      × (r.metrics.total_signals ≤ 10000)

  abbrev pub AnswersVerdict : {G : Type 0} → Answer (Report F) → G × PaperTables F → Type 0
  AnswersVerdict answer w = (r : Report F) × (answer ≡ answered r) × IsVerdict r

  report_of-IsVerdict :
      (trades : List (PaperTrade F)) → length trades ≤ 10000 → IsVerdict (report_of s trades)
  unfolding report_of compute_metrics
  report_of-IsVerdict trades few = (report_of-passed trades, length-filter is_closed trades, few)

  -- Where the database does not raise, a report is answered: it is passed exactly where all seven
  -- conditions hold of its metrics, and the metrics count at most 10000 trades, of which no more are
  -- closed than there are.
  pub build_report-AnswersVerdict :
      {G : Type 0} (db : Connection G) (w : G × PaperTables F)
      → IsSteady db
      → Ensures AnswersVerdict (build_report s db w)
  unfolding build_report list_trades page_by
  build_report-AnswersVerdict {G} db (g, t) steady =
      let listed = list_trades every_trade 0 10000 false in
      guarded-Ensures (λ r _. IsVerdict r) AnswersVerdict
        (beside db.connect >> read db listed >>= λ trades. pure (report_of s trades)) (g, t)
        (Ensures-bind (λ trades _. length trades ≤ 10000) (λ r _. IsVerdict r)
          (beside db.connect >> read db listed) (λ trades. pure (report_of s trades)) (g, t)
          (beside-Ensures db.connect (read db listed) (λ trades _. length trades ≤ 10000) g t
            steady.0
            (λ h.
              beside-Ensures db.query (λ v. (ok (listed v.1), v))
                (λ trades _. length trades ≤ 10000) h t steady.1 (λ h'. length-take 10000 _)))
          (λ trades w' few. report_of-IsVerdict trades few))
        (λ r w' verdict. (r, refl, verdict))
