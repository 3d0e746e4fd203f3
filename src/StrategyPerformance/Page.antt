-- ===== src/StrategyPerformance/Page.antt =====
-- What the rows of a page keep to.
use haru_trade_manager.Common.{
  ◌≡◌, refl, ℕ, zero, suc, ◌+◌, ◌≤◌, max, Bool, true, List, [], ◌∷◌, leb, length, drop, take, All,
  if_then_else-P, arith, inl, inr, Double, IsOrdered, lt, gt, nought, ok, Dict,
}
use haru_trade_manager.StrategyPerformance.{
  PaperTrade, StrategyMetrics, Query, Report, page, no_report, filtered, compute, compute_all,
  group, keep_if, place, precedes, sorted, matches, selected, page_of, report,
}

module _ {F : Type 0} ⦃d : Double F⦄ where
  -- A float is not above 0 and below 0.
  not_both : (ord : IsOrdered F) (x : F) → lt nought x ≡ true → lt x nought ≡ true → ⊥
  not_both ord x above below =
      let (n0, nx) = ord.number_of_lt nought x above in
      elim (ord.le_total nought x n0 nx) [
        | inl h ↦ cc (below, ord.lt-eq-not-le x nought nx n0, h)
        | inr h ↦ cc (above, ord.lt-eq-not-le nought x n0 nx, h)
      ]

  filtered-length :
      (ord : IsOrdered F) (pnls : List F)
      → length (filtered (λ x. gt x nought) pnls) + length (filtered (λ x. lt x nought) pnls)
        ≤ length pnls
  unfolding filtered
  filtered-length ord [] = omega arith
  filtered-length ord (x ∷ pnls) = ground (arith, filtered-length ord pnls, not_both ord x)

  -- The wins and the losses are among the trades, which are as many as the query asks for.
  abbrev pub IsSound : ℕ → StrategyMetrics F → Type 0
  IsSound min_trades m = (m.wins + m.losses ≤ m.trades) × (min_trades ≤ m.trades)

  module _ (P : StrategyMetrics F → Type 0) where
    keep_if-All :
        (test : StrategyMetrics F → Bool) (ms : List (StrategyMetrics F))
        → All P ms
        → All P (keep_if test ms)
    unfolding keep_if
    keep_if-All test [] h = tt
    keep_if-All test (m ∷ ms) h =
        if_then_else-P (All P) (test m) _ _ (λ _. (h.0, keep_if-All test ms h.1))
          (λ _. keep_if-All test ms h.1)

    place-All :
        (q : Query F) (m : StrategyMetrics F) (ms : List (StrategyMetrics F))
        → P m
        → All P ms
        → All P (place q m ms)
    unfolding place
    place-All q m [] p h = (p, tt)
    place-All q m (other ∷ ms) p h =
        if_then_else-P (All P) (precedes q other m) _ _ (λ _. (h.0, place-All q m ms p h.1))
          (λ _. (p, h))

    sorted-All : (q : Query F) (ms : List (StrategyMetrics F)) → All P ms → All P (sorted q ms)
    unfolding sorted
    sorted-All q [] h = tt
    sorted-All q (m ∷ ms) h = place-All q m (sorted q ms) h.0 (sorted-All q ms h.1)

    drop-All : (n : ℕ) (ms : List (StrategyMetrics F)) → All P ms → All P (drop n ms)
    drop-All zero ms h = h
    drop-All (suc n) [] h = h
    drop-All (suc n) (m ∷ ms) h = drop-All n ms h.1

    take-All : (n : ℕ) (ms : List (StrategyMetrics F)) → All P ms → All P (take n ms)
    take-All zero ms h = tt
    take-All (suc n) [] h = tt
    take-All (suc n) (m ∷ ms) h = (h.0, take-All n ms h.1)

  length-take : (n : ℕ) (ms : List (StrategyMetrics F)) → length (take n ms) ≤ n
  length-take zero ms = omega arith
  length-take (suc n) [] = omega arith
  length-take (suc n) (m ∷ ms) = omega (arith, length-take n ms)

  enough-All :
      (ord : IsOrdered F) (n : ℕ) (grouped : Dict (List F))
      → All (IsSound n) (keep_if (λ m. leb n m.trades) (compute_all grouped))
  unfolding keep_if compute_all compute
  enough-All ord n [] = tt
  enough-All ord n ((strategy_id, pnls) ∷ grouped) =
      if_then_else-P (All (IsSound n)) (leb n (length pnls)) _ _
        (λ enough. ((filtered-length ord pnls, ground arith), enough-All ord n grouped))
        (λ _. enough-All ord n grouped)

  -- The page that a report shows.
  abbrev pub IsPage : Query F → Report F → Type 0
  IsPage q (page items total offset limit) =
      All (IsSound q.min_trades) items × (length items ≤ limit) × (limit ≡ max q.limit 1)
  IsPage q (no_report text) = ⊥

  -- A report of trades that were listed is a page of no more rows than its limit, which is at least
  -- 1; each row counts no more wins and losses than trades, and as many trades as were asked for.
  pub report-IsPage :
      (ord : IsOrdered F) (q : Query F) (trades : List (PaperTrade F))
      → (r : Report F) × (report q (ok trades) ≡ ok r) × IsPage q r
  unfolding report selected
  report-IsPage ord q trades =
      let rows = selected q trades in
      (
        page_of q rows,
        refl,
        (
          take-All (IsSound q.min_trades) (max q.limit 1) (drop q.offset rows) (
              drop-All (IsSound q.min_trades) q.offset rows (
                sorted-All (IsSound q.min_trades) q
                  (keep_if (matches q q.strategy_query)
                    (keep_if (λ m. leb q.min_trades m.trades) (compute_all (group trades []))))
                  (keep_if-All (IsSound q.min_trades) (matches q q.strategy_query)
                    (keep_if (λ m. leb q.min_trades m.trades) (compute_all (group trades [])))
                    (enough-All ord q.min_trades (group trades []))))),
          length-take (max q.limit 1) (drop q.offset rows),
          refl,
        ),
      )
