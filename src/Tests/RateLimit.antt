-- ===== src/Tests/RateLimit.antt =====
-- Calls and an order that overtakes them.
use haru_trade_manager.Common.{◌≡◌, refl, true, false, none, some, [], ◌∷◌, map}
use haru_trade_manager.RateLimit.{Client, submitting, taking, run_steps, submit, put, take_job}
use haru_trade_manager.RateLimit.Fair.{number_of, run_lanes, run_steps-lanes}

abbrev idle : Client
idle = record {
  min_interval = 200000;
  last_ts = 0;
  seq = 0;
  queue = [];
  token = none;
  token_expires_at = 0;
}

run_steps-lanes_example :
    map number_of
      (run_steps
        (submitting false ∷ submitting false ∷ submitting true ∷ taking ∷ taking ∷ [])
        idle).0
    ≡ (run_lanes
        (submitting false ∷ submitting false ∷ submitting true ∷ taking ∷ taking ∷ [])
        (0, [], [])).0
run_steps-lanes_example =
    run_steps-lanes (submitting false ∷ submitting false ∷ submitting true ∷ taking ∷ taking ∷ [])
      idle refl

overtakes :
    map number_of
      (run_steps
        (submitting false ∷ submitting false ∷ submitting true ∷ taking ∷ taking ∷ [])
        idle).0
    ≡ some 3 ∷ some 1 ∷ []
unfolding run_steps submit put take_job
overtakes = refl
