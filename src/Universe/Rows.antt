-- ===== src/Universe/Rows.antt =====
-- What the first start writes into the universe.
use haru_trade_manager.Common.{
  if◌then◌else◌, ◌≡◌, refl, ℕ, zero, suc, ◌&&◌, String, Bool, true, false, some, List, [], ◌∷◌,
  ◌++◌, Act, Outcome, ok, raised, Failure, ErrorKind, sql_error, key_error, value_error,
  other_error, pure, catch, ◌>>=◌, ◌>>◌, length, fstring, Ensures,
}
use haru_trade_manager.Runtime.{beside}
use haru_trade_manager.Paper.{Connection, read}
use haru_trade_manager.Universe.{Symbol, every_symbol, count_symbols}
use haru_trade_manager.Universe.Seeds.{
  Seed, Seeds, Bootstrap, Added, Added.rows, Added.invalid_market, add_seeds, write_rows,
  from_items, from_seeds, if_empty, on_error, bootstrapped_with, skipped_with,
  bootstrap_universe_on_first_run,
}
use haru_trade_manager.Universe.NewRows.{
  goes_well, is_zero, is_cons, named, seeds_of, all_valid, AreRowsOf, Fits, add_seeds-Fits,
}

module _ (upper : String → String) where
  module _ (rank : String → ℕ) (ilike : String → String → Bool) {G : Type 0} (db : Connection G)
      (seed_fetcher : Act G Seeds) (t : List Symbol) where
    abbrev IsSkipped : Bootstrap → G × List Symbol → Type 0
    IsSkipped status w = (status.bootstrapped ≡ false) × (w.1 ≡ t)

    abbrev IsWritten : List Seed → Bootstrap → G × List Symbol → Type 0
    IsWritten seeds status w =
        (status.bootstrapped ≡ true)
        × (added : List Symbol) × (w.1 ≡ t ++ added)
        × AreRowsOf upper (named seeds) added
        × (status.seeded_count ≡ some (length added))

    abbrev IsEnded : Bool → List Seed → Bootstrap → G × List Symbol → Type 0
    IsEnded true seeds = IsWritten seeds
    IsEnded false seeds = IsSkipped

    -- The second session and its commit go well, and each seed with a ticker has a valid source.
    abbrev writes : List Seed → G → Bool
    writes seeds g =
        let (r, g') = db.connect g in
        goes_well r && (all_valid upper (named seeds) && goes_well (db.commit g').0)

    abbrev fetched : Outcome Seeds × G → Bool
    fetched (r, g) = is_cons (seeds_of r) && writes (seeds_of r) g

    -- The state in which the seeds are fetched.
    abbrev pub before_fetch : G → G
    before_fetch g = (db.query (db.connect g).1).1

    -- The first session and its query go well, the table has no symbol, and the fetch gives seeds that
    -- can be written.
    abbrev pub is_due : G → Bool
    is_due g =
        let (r, g') = db.connect g in
        goes_well r
        && (goes_well (db.query g').0
            && (is_zero (count_symbols rank ilike every_symbol t)
                && fetched (seed_fetcher (before_fetch g))))

    -- The table is as before, or has the new ones.
    abbrev pub IsSeeded : G → Bootstrap → G × List Symbol → Type 0
    IsSeeded g = IsEnded (is_due g) (seeds_of (seed_fetcher (before_fetch g)).0)

    on_error-IsSkipped :
        (kind : ErrorKind) (exc : Failure)
        → (on_error upper rank ilike db seed_fetcher kind exc).bootstrapped ≡ false
    on_error-IsSkipped sql_error exc = refl
    on_error-IsSkipped key_error exc = refl
    on_error-IsSkipped value_error exc = refl
    on_error-IsSkipped other_error exc = refl

    -- What `bootstrap_universe_on_first_run` does with what it raises.
    abbrev with_rescue : Act (G × List Symbol) Bootstrap → G → Outcome Bootstrap × (G × List Symbol)
    with_rescue act g =
        catch act (λ exc. pure (on_error upper rank ilike db seed_fetcher exc.kind exc)) (g, t)

    write_rows-IsEnded :
        (b : Bool) (seeds : List Seed) (added : Added) (g : G)
        → Fits upper b (named seeds) added
        → Ensures
            (IsEnded (b && goes_well (db.commit g).0) seeds)
            (with_rescue (write_rows upper rank ilike db seed_fetcher added) g)
    unfolding write_rows
    write_rows-IsEnded true seeds (rows added) g h = go (db.commit g)
      where
        go :
            (r : Outcome (Unit {0}) × G)
            → Ensures (IsEnded (goes_well r.0) seeds) (
                with_rescue
                  (beside (λ _. r) >> λ w. (
                    ok (bootstrapped_with upper rank ilike db seed_fetcher (length added)),
                    (w.0, w.1 ++ added),
                  ))
                  g)
        go (ok _, g') = (refl, added, refl, h, refl)
        go (raised e, g') = (on_error-IsSkipped e.kind e, refl)
    write_rows-IsEnded true seeds (invalid_market market) g h = absurd h
    write_rows-IsEnded false seeds (rows added) g h = absurd h
    write_rows-IsEnded false seeds (invalid_market market) g h = (refl, refl)

    from_items-IsEnded :
        (seeds : List Seed) (g : G)
        → Ensures
            (IsEnded (is_cons seeds && writes seeds g) seeds)
            (with_rescue (from_items upper rank ilike db seed_fetcher seeds) g)
    unfolding from_items
    from_items-IsEnded [] g = (refl, refl)
    from_items-IsEnded (seed ∷ seeds) g = go (db.connect g)
      where
        go :
            (r : Outcome (Unit {0}) × G)
            → Ensures
                (IsEnded
                  (goes_well r.0
                    && (all_valid upper (named (seed ∷ seeds)) && goes_well (db.commit r.1).0))
                  (seed ∷ seeds))
                (with_rescue
                  (beside (λ _. r)
                    >> write_rows upper rank ilike db seed_fetcher (add_seeds upper (seed ∷ seeds)))
                  g)
        go (ok _, g') =
            write_rows-IsEnded (all_valid upper (named (seed ∷ seeds))) (seed ∷ seeds)
              (add_seeds upper (seed ∷ seeds)) g' (add_seeds-Fits upper (seed ∷ seeds))
        go (raised e, g') = (on_error-IsSkipped e.kind e, refl)

    from_seeds-IsEnded :
        (r : Outcome Seeds × G) (g : G)
        → Ensures
            (IsEnded (fetched r) (seeds_of r.0))
            (with_rescue (beside (λ _. r) >>= from_seeds upper rank ilike db seed_fetcher) g)
    unfolding fstring from_items
    from_seeds-IsEnded (raised e, g') g = (on_error-IsSkipped e.kind e, refl)
    from_seeds-IsEnded (ok answer, g') g = by_test answer.is_ok
      where
        by_test :
            (is_ok : Bool)
            → let seeds = if is_ok then answer.items else [] in
              Ensures (IsEnded (is_cons seeds && writes seeds g') seeds) (
                with_rescue
                  (if is_ok
                    then from_items upper rank ilike db seed_fetcher answer.items
                    else pure (skipped_with (fstring ("seed_fetch_failed:" ∷ answer.error ∷ []))))
                  g')
        by_test true = from_items-IsEnded answer.items g'
        by_test false = (refl, refl)

    if_empty-IsEnded :
        (n : ℕ) (g : G)
        → Ensures
            (IsEnded (is_zero n && fetched (seed_fetcher g)) (seeds_of (seed_fetcher g).0))
            (with_rescue (if_empty upper rank ilike db seed_fetcher n) g)
    unfolding if_empty
    if_empty-IsEnded zero g = from_seeds-IsEnded (seed_fetcher g) g
    if_empty-IsEnded (suc n) g = (refl, refl)

    -- The first start ends with a status. Its symbols are written just where the sessions, the query,
    -- the fetch and the commit go well, the table has no symbol, the fetch gives items, and each item
    -- with a ticker has a market that is a valid source: then exactly one row is added for each item
    -- with a ticker, in their order, with its ticker, its name or else its ticker, and its source, in
    -- the universe, neither active nor blocked, and normal, and the status says how many. In every
    -- other case the table is as it was, and the status says that nothing was written.
    pub bootstrap_universe-IsSeeded :
        (g : G)
        → Ensures
            (IsSeeded g)
            (bootstrap_universe_on_first_run upper rank ilike db seed_fetcher (g, t))
    unfolding bootstrap_universe_on_first_run
    bootstrap_universe-IsSeeded g = connected (db.connect g)
      where
        count : List Symbol → ℕ
        count = count_symbols rank ilike every_symbol

        queried :
            (r : Outcome (Unit {0}) × G)
            → Ensures
                (IsEnded
                  (goes_well r.0 && (is_zero (count t) && fetched (seed_fetcher r.1)))
                  (seeds_of (seed_fetcher r.1).0))
                (with_rescue
                  (beside (λ _. r)
                    >> (λ w. (ok (count w.1), w))
                    >>= if_empty upper rank ilike db seed_fetcher)
                  g)
        queried (ok _, g') = if_empty-IsEnded (count t) g'
        queried (raised e, g') = (on_error-IsSkipped e.kind e, refl)

        connected :
            (r : Outcome (Unit {0}) × G)
            → let (q, g'') = db.query r.1 in
              Ensures
                (IsEnded
                  (goes_well r.0
                    && (goes_well q && (is_zero (count t) && fetched (seed_fetcher g''))))
                  (seeds_of (seed_fetcher g'').0))
                (with_rescue
                  (beside (λ _. r) >> read db count >>= if_empty upper rank ilike db seed_fetcher)
                  g)
        connected (ok _, g') = queried (db.query g')
        connected (raised e, g') = (on_error-IsSkipped e.kind e, refl)
