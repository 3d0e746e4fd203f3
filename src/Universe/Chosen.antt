-- ===== src/Universe/Chosen.antt =====
-- Which symbols are active after a recount.
use text.Mathlib.Text.{◌==◌ as str_eq}
use text.Mathlib.TextPositions.{eq_refl}
use haru_trade_manager.Common.{
  ◌≡◌, refl, ap, ◌∙◌, ℕ, zero, suc, ◌≤◌, arith, inl, inr, String, Bool, true, false, not, ◌&&◌,
  ◌||◌, if◌then◌else◌, List, [], ◌∷◌, map, Outcome, ok, raised, pure, ◌>>=◌, ◌>>◌, length, take,
  member, filter, insert_by, sort_by, length-sort_by, page_by, All, All-weaken, Bool-cases, After,
  After-bind, Double,
}
use haru_trade_manager.Paper.{Connection}
use haru_trade_manager.LoopB.Candles.{CandleRow}
use haru_trade_manager.Universe.{Symbol, list_symbols, is_matched, tickers_of}
use haru_trade_manager.Universe.Liquidity.{
  Liquidity, Counters, in_universe_only, listed_rows, won, should_activate, count_row, activate,
  query_daily, is_barred, is_enough, is_liquid, count_rows, liquidity_of, recompute_active_universe,
  committed, recompute_and_commit,
}

module _ (key : Symbol → ℕ) where
  member-insert_by :
      (t : String) (x : Symbol) (ys : List Symbol)
      → member t (tickers_of (insert_by key x ys)) ≡ (str_eq t x.ticker || member t (tickers_of ys))
  unfolding insert_by
  member-insert_by t x [] = refl
  member-insert_by t x (y ∷ ys) = ground (arith, member-insert_by t x ys)

  member-sort_by :
      (t : String) (xs : List Symbol)
      → member t (tickers_of (sort_by key xs)) ≡ member t (tickers_of xs)
  unfolding sort_by
  member-sort_by t [] = refl
  member-sort_by t (x ∷ xs) =
      member-insert_by t x (sort_by key xs) ∙ ap (λ b. str_eq t x.ticker || b) (member-sort_by t xs)

take-all : {A : Type 0} (n : ℕ) (xs : List A) → length xs ≤ n → take n xs ≡ xs
take-all zero [] h = refl
take-all zero (x ∷ xs) h = absurd (omega (arith, h))
take-all (suc n) [] h = refl
take-all (suc n) (x ∷ xs) h = ap (λ rest. x ∷ rest) (take-all n xs (omega (arith, h)))

-- What passes the test is among the filtered.
member-filter :
    (test : Symbol → Bool) (rows : List Symbol)
    → All (λ row. test row ≡ true → member row.ticker (tickers_of (filter test rows)) ≡ true) rows
unfolding filter
member-filter test [] = tt
member-filter test (row ∷ rows) = (
  (λ passed. rw passed (ground (arith, eq_refl row.ticker))),
  All-weaken (λ x. test x ≡ true → member x.ticker (tickers_of (filter test rows)) ≡ true)
      (λ x. test x ≡ true → member x.ticker (tickers_of (filter test (row ∷ rows))) ≡ true) rows
      (λ x h passed. ground (arith, h passed)) (member-filter test rows),
)

module _ (rank : String → ℕ) (ilike : String → String → Bool) (rows : List Symbol) where
  -- The query of the universe leaves no symbol out.
  abbrev pub IsWithinLimit : Type 0
  IsWithinLimit = length (filter (is_matched rank ilike in_universe_only) rows) ≤ 20000

  listed_rows-all :
      IsWithinLimit
      → All
          (λ row.
            row.in_universe ≡ true
            → member row.ticker (tickers_of (listed_rows rank ilike rows)) ≡ true)
          rows
  unfolding list_symbols page_by
  listed_rows-all few =
      let matched = filter (is_matched rank ilike in_universe_only) rows in
      let key : Symbol → ℕ = λ row. rank row.ticker in
      let whole : take 20000 (sort_by key matched) ≡ sort_by key matched =
        take-all 20000 (sort_by key matched) (omega (arith, length-sort_by key matched, few)) in
      All-weaken
        (λ row.
          is_matched rank ilike in_universe_only row ≡ true
          → member row.ticker (tickers_of matched) ≡ true)
        (λ row.
          row.in_universe ≡ true
          → member row.ticker (tickers_of (take 20000 (sort_by key matched))) ≡ true)
        rows
        (λ row h inside.
          ap (λ xs. member row.ticker (tickers_of xs)) whole
          ∙ member-sort_by key row.ticker matched
          ∙ h (rw inside refl))
        (member-filter (is_matched rank ilike in_universe_only) rows)

  module _ {F : Type 0} ⦃d : Double F⦄ (candles : List (CandleRow F)) where
    -- Neither halted, removed nor about to leave, with enough bars, and traded enough.
    abbrev pub is_wanted : F → Symbol → Bool
    is_wanted threshold_won row =
        not (is_barred row)
        && is_enough candles threshold_won row
        && is_liquid candles threshold_won row

    should_activate_lem :
        (threshold_won : F) (row : Symbol)
        → should_activate candles threshold_won row ≡ is_wanted threshold_won row
    unfolding should_activate
    should_activate_lem threshold_won row =
        by_tests (is_barred row) (is_enough candles threshold_won row)
          (is_liquid candles threshold_won row)
      where
        by_tests :
            (barred enough liquid : Bool)
            → (if barred then false else if enough then liquid else false)
              ≡ (not barred && enough && liquid)
        by_tests true enough liquid = refl
        by_tests false true liquid = refl
        by_tests false false liquid = refl

    -- A symbol of the universe is active exactly where it should be.
    abbrev pub IsChosen : F → Symbol → Type 0
    IsChosen threshold_won row =
        row.in_universe ≡ true → row.is_active ≡ is_wanted threshold_won row

    activate-IsChosen :
        (threshold_won : F) (listed : List String) (row : Symbol)
        → (row.in_universe ≡ true → member row.ticker listed ≡ true)
        → IsChosen threshold_won (activate candles threshold_won listed row)
    activate-IsChosen threshold_won listed row found =
        elim (Bool-cases (member row.ticker listed)) [
          | inl there ↦ rw there (λ _. should_activate_lem threshold_won row)
          | inr missing ↦ rw missing (λ inside. cc (missing, found inside))
        ]

    All-activate :
        (threshold_won : F) (listed : List String) (xs : List Symbol)
        → All (λ row. row.in_universe ≡ true → member row.ticker listed ≡ true) xs
        → All (IsChosen threshold_won) (map (activate candles threshold_won listed) xs)
    All-activate threshold_won listed [] h = tt
    All-activate threshold_won listed (row ∷ xs) h =
        (activate-IsChosen threshold_won listed row h.0, All-activate threshold_won listed xs h.1)

    -- The counters of the loop, where no query raises.
    abbrev AreCounts : F → List Symbol → Counters → Type 0
    AreCounts threshold_won listed c = c.active ≡ length (filter (is_wanted threshold_won) listed)

    module _ {G : Type 0} (db : Connection G) where
      abbrev Counted : F → List Symbol → Outcome Counters × G → Type 0
      Counted threshold_won listed = After (λ c _. AreCounts threshold_won listed c) (λ _ _. Unit)

      any_end : {A : Type 0} (r : Outcome A × G) → After (λ _ _. Unit) (λ _ _. Unit) r
      any_end (ok a, g) = tt
      any_end (raised e, g) = tt

      count_row-AreCounts :
          (threshold_won : F) (row : Symbol) (listed : List Symbol) (c : Counters)
          → AreCounts threshold_won listed c
          → AreCounts threshold_won (row ∷ listed) (count_row candles threshold_won row c)
      unfolding count_row filter
      count_row-AreCounts threshold_won row listed c h =
          elim (Bool-cases (is_wanted threshold_won row)) [
            | inl active ↦ rw (should_activate_lem threshold_won row, active) (omega (arith, h))
            | inr idle ↦ rw (should_activate_lem threshold_won row, idle) h
          ]

      count_rows-AreCounts :
          (threshold_won : F) (listed : List Symbol) (g : G)
          → Counted threshold_won listed (count_rows candles threshold_won db listed g)
      unfolding count_rows filter
      count_rows-AreCounts threshold_won [] g = refl
      count_rows-AreCounts threshold_won (row ∷ listed) g =
          After-bind (λ _ _. Unit) (λ c _. AreCounts threshold_won (row ∷ listed) c) (λ _ _. Unit)
            (query_daily candles threshold_won db row)
            (λ _. count_rows candles threshold_won db listed >>= λ c.
              pure (count_row candles threshold_won row c))
            g (any_end (query_daily candles threshold_won db row g))
            (λ _ g' _.
              After-bind (λ c _. AreCounts threshold_won listed c)
                (λ c _. AreCounts threshold_won (row ∷ listed) c) (λ _ _. Unit)
                (count_rows candles threshold_won db listed)
                (λ c. pure (count_row candles threshold_won row c)) g'
                (count_rows-AreCounts threshold_won listed g')
                (λ c g'' h. count_row-AreCounts threshold_won row listed c h))

      abbrev listed : List Symbol
      listed = listed_rows rank ilike rows

      -- The symbols are chosen, and the active ones of the universe are counted.
      abbrev pub IsRecounted : F → Liquidity F → G × List Symbol → Type 0
      IsRecounted threshold_eok report w =
          All (IsChosen (won rank ilike db threshold_eok)) w.1
          × (report.in_universe_count ≡ length listed)
          × (report.active_count
              ≡ length (filter (is_wanted (won rank ilike db threshold_eok)) listed))

      -- The session's own result.
      abbrev Chosen : F → Liquidity F × List Symbol → G → Type 0
      Chosen threshold_eok changed g = IsRecounted threshold_eok changed.0 (g, changed.1)

      recompute-Chosen :
          (threshold_eok : F) (g : G)
          → IsWithinLimit
          → After
              (Chosen threshold_eok)
              (λ _ _. Unit)
              (recompute_active_universe rank ilike db threshold_eok candles rows g)
      unfolding recompute_active_universe
      recompute-Chosen threshold_eok g few =
          let threshold = won rank ilike db threshold_eok in
          let result : Counters → Liquidity F × List Symbol = λ c. (
            liquidity_of threshold_eok threshold listed c,
            map (activate candles threshold (tickers_of listed)) rows,
          ) in
          After-bind (λ _ _. Unit) (Chosen threshold_eok) (λ _ _. Unit) db.query
            (λ _. count_rows candles threshold db listed >>= λ c. pure (result c)) g
            (any_end (db.query g))
            (λ _ g' _.
              After-bind (λ c _. AreCounts threshold listed c) (Chosen threshold_eok) (λ _ _. Unit)
                (count_rows candles threshold db listed) (λ c. pure (result c)) g'
                (count_rows-AreCounts threshold listed g')
                (λ c g'' h.
                  (All-activate threshold (tickers_of listed) rows (listed_rows-all few), refl, h)))

      committed-Chosen :
          (threshold_eok : F) (r : Outcome (Liquidity F × List Symbol) × G)
          → After (Chosen threshold_eok) (λ _ _. Unit) r
          → After (IsRecounted threshold_eok) (λ _ w. w.1 ≡ rows) (committed rank ilike db rows r)
      committed-Chosen threshold_eok (ok (report, changed), g) h = h
      committed-Chosen threshold_eok (raised e, g) h = refl

      -- Where the universe has at most 20000 symbols: after the recount every symbol of the universe
      -- is active exactly where it is neither halted, removed nor about to leave, has 20 daily bars
      -- and trades enough, and the report counts them; a recount that raises changes nothing.
      pub recompute_and_commit-IsRecounted :
          (threshold_eok : F) (g : G)
          → IsWithinLimit
          → After
              (IsRecounted threshold_eok)
              (λ _ w. w.1 ≡ rows)
              (recompute_and_commit rank ilike db threshold_eok candles (g, rows))
      unfolding recompute_and_commit
      recompute_and_commit-IsRecounted threshold_eok g few =
          let recompute = recompute_active_universe rank ilike db threshold_eok candles rows in
          committed-Chosen threshold_eok
            ((db.connect >> (recompute >>= λ changed. db.commit >> pure changed)) g)
            (After-bind (λ _ _. Unit) (Chosen threshold_eok) (λ _ _. Unit) db.connect
              (λ _. recompute >>= λ changed. db.commit >> pure changed) g (any_end (db.connect g))
              (λ _ g' _.
                After-bind (Chosen threshold_eok) (Chosen threshold_eok) (λ _ _. Unit) recompute
                  (λ changed. db.commit >> pure changed) g' (recompute-Chosen threshold_eok g' few)
                  (λ changed g'' h.
                    After-bind (λ _ _. Unit) (Chosen threshold_eok) (λ _ _. Unit) db.commit
                      (λ _. pure changed) g'' (any_end (db.commit g'')) (λ _ _ _. h))))
