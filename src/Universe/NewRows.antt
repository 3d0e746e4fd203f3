-- ===== src/Universe/NewRows.antt =====
-- The rows that the loop over the seeds adds.
use mathlib.Core.Path.{subst}
use haru_trade_manager.Common.{
  if◌then◌else◌, ◌≡◌, refl, ℕ, zero, suc, ◌&&◌, inl, inr, String, Bool, true, false, Option, none,
  some, List, [], ◌∷◌, Outcome, ok, raised, filter, member, truthy, strip, Bool-cases,
}
use haru_trade_manager.Universe.{Symbol, normal}
use haru_trade_manager.Universe.Sources.{
  normalize_universe_source, valid_universe_sources, legacy_of,
}
use haru_trade_manager.Universe.Seeds.{
  Seed, Seeds, Added, Added.rows, Added.invalid_market, with_row, new_symbol, add_valid, add_seeds,
  or_ticker,
}

-- A symbol as the first start adds it.
abbrev pub IsNew : Symbol → Type 0
IsNew row =
    (truthy row.ticker ≡ true)
    × (member row.market valid_universe_sources ≡ true)
    × (row.in_universe ≡ true)
    × (row.is_active ≡ false)
    × (row.is_blocked ≡ false)
    × (row.status ≡ normal)

abbrev pub is_found : Option String → Bool
is_found none = false
is_found (some market) = true

abbrev pub goes_well : {A : Type 0} → Outcome A → Bool
goes_well (ok _) = true
goes_well (raised _) = false

abbrev pub is_zero : ℕ → Bool
is_zero zero = true
is_zero (suc n) = false

abbrev pub is_cons : List Seed → Bool
is_cons [] = false
is_cons (seed ∷ seeds) = true

-- The seeds with a ticker.
abbrev pub named : List Seed → List Seed
named = filter (λ seed. truthy (strip seed.ticker))

-- The items of an answer; none where the fetch raised or says that it failed.
abbrev pub seeds_of : Outcome Seeds → List Seed
seeds_of (ok answer) = if answer.is_ok then answer.items else []
seeds_of (raised e) = []

chosen :
    (b : Bool) (found source : String)
    → (if b then some found else none) ≡ some source
    → (b ≡ true) × (found ≡ source)
chosen true found source e = (refl, cc e)
chosen false found source e = cc e

module _ (upper : String → String) where
  normalized-member :
      (value : Option String) (source : String)
      → normalize_universe_source upper value ≡ some source
      → member source valid_universe_sources ≡ true
  unfolding normalize_universe_source
  normalized-member none source h = cc h
  normalized-member (some value) source h =
      let found = legacy_of (upper (strip value)) in
      let same = chosen (member found valid_universe_sources) found source h in
      subst (λ x. member x valid_universe_sources ≡ true) same.1 same.0

  abbrev pub all_valid : List Seed → Bool
  all_valid [] = true
  all_valid (seed ∷ seeds) =
      is_found (normalize_universe_source upper (some seed.market)) && all_valid seeds

  -- The row of one seed.
  abbrev pub IsRowOf : Seed → Symbol → Type 0
  IsRowOf seed row =
      IsNew row
      × (row.ticker ≡ strip seed.ticker)
      × (row.name ≡ or_ticker seed.name (strip seed.ticker))
      × (normalize_universe_source upper (some seed.market) ≡ some row.market)

  -- One row for each seed, in their order.
  abbrev pub AreRowsOf : List Seed → List Symbol → Type 0
  AreRowsOf [] [] = Unit
  AreRowsOf (seed ∷ seeds) (row ∷ more) = IsRowOf seed row × AreRowsOf seeds more
  AreRowsOf _ _ = ⊥

  abbrev pub Fits : Bool → List Seed → Added → Type 0
  Fits true seeds (rows added) = AreRowsOf seeds added
  Fits false seeds (invalid_market market) = Unit
  Fits _ _ _ = ⊥

  with_row-Fits :
      (b : Bool) (seed : Seed) (seeds : List Seed) (row : Symbol) (added : Added)
      → IsRowOf seed row
      → Fits b seeds added
      → Fits b (seed ∷ seeds) (with_row row added)
  with_row-Fits true seed seeds row (rows added) h k = (h, k)
  with_row-Fits true seed seeds row (invalid_market market) h k = absurd k
  with_row-Fits false seed seeds row (rows added) h k = absurd k
  with_row-Fits false seed seeds row (invalid_market market) h k = tt

  pub add_seeds-Fits :
      (seeds : List Seed) → Fits (all_valid (named seeds)) (named seeds) (add_seeds upper seeds)
  unfolding add_seeds filter
  add_seeds-Fits [] = tt
  add_seeds-Fits (seed ∷ seeds) = elim (Bool-cases (truthy (strip seed.ticker))) [
    | inl has_ticker ↦ rw has_ticker (
        go (normalize_universe_source upper (some seed.market)) refl has_ticker
          (add_seeds-Fits seeds))
    | inr nameless ↦ rw nameless (add_seeds-Fits seeds)
  ]
    where
      go :
          (market : Option String)
          → normalize_universe_source upper (some seed.market) ≡ market
          → truthy (strip seed.ticker) ≡ true
          → Fits (all_valid (named seeds)) (named seeds) (add_seeds upper seeds)
          → Fits
              (is_found market && all_valid (named seeds))
              (seed ∷ named seeds)
              (add_valid upper seed market (add_seeds upper seeds))
      go none e has_ticker rest = tt
      go (some market) e has_ticker rest =
          with_row-Fits (all_valid (named seeds)) seed (named seeds) (new_symbol seed market)
            (add_seeds upper seeds)
            (
              (has_ticker, normalized-member (some seed.market) market e, refl, refl, refl, refl),
              refl,
              refl,
              e,
            )
            rest
