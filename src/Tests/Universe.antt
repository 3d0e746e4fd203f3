-- ===== src/Tests/Universe.antt =====
-- A first start with one seed, and a recount of a universe without candles.
use haru_trade_manager.Common.{
  ◌≡◌,
  arith,
  filter,
  ℕ,
  suc,
  true,
  false,
  Bool,
  none,
  String,
  [],
  ◌∷◌,
  ok,
  Ensures,
  After,
  ℤ_double,
  Int.{pos},
}
use haru_trade_manager.Paper.{Connection}
use haru_trade_manager.Universe.{Symbol}
use haru_trade_manager.Universe.Seeds.{Seeds, bootstrap_universe_on_first_run}
use haru_trade_manager.Universe.Rows.{IsSeeded, bootstrap_universe-IsSeeded}
use haru_trade_manager.Universe.Liquidity.{recompute_and_commit}
use haru_trade_manager.Universe.Chosen.{IsRecounted, recompute_and_commit-IsRecounted}

abbrev counting : Connection ℕ
counting = record {
  connect = λ n. (ok tt, suc n);
  query = λ n. (ok tt, suc n);
  commit = λ n. (ok tt, suc n);
  refresh = λ n. (ok tt, suc n);
}

abbrev one_seed : Seeds
one_seed = record {
  is_ok = true;
  error = "unknown";
  items = record { ticker = "005930"; name = none; market = "KOSPI" } ∷ [];
}

abbrev active_symbol : Symbol
active_symbol = record {
  ticker = "005930";
  name = "A";
  market = "KOSPI200";
  in_universe = true;
  is_active = true;
  is_blocked = false;
  status = "normal";
}

abbrev flat : String → ℕ
flat ticker = 0

abbrev like_none : String → String → Bool
like_none column pattern = false

abbrev same : String → String
same s = s

bootstrap_universe-IsSeeded_example :
    Ensures (IsSeeded same flat like_none counting (λ n. (ok one_seed, suc n)) [] 0) (
      bootstrap_universe_on_first_run same flat like_none counting
        (λ n. (ok one_seed, suc n))
        (0, []))
bootstrap_universe-IsSeeded_example =
    bootstrap_universe-IsSeeded same flat like_none counting (λ n. (ok one_seed, suc n)) [] 0

recompute_and_commit-IsRecounted_example :
    After
      (IsRecounted flat like_none (active_symbol ∷ []) [] counting (pos 50))
      (λ _ w. w.1 ≡ active_symbol ∷ [])
      (recompute_and_commit flat like_none counting (pos 50) [] (0, active_symbol ∷ []))
unfolding filter
recompute_and_commit-IsRecounted_example =
    recompute_and_commit-IsRecounted flat like_none (active_symbol ∷ []) [] counting (pos 50) 0
      (omega arith)
