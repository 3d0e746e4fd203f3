-- ===== src/Performance/Answered.antt =====
-- Calls that answer the text of a failure of the database.
use haru_trade_manager.Common.{Act, Outcome, ok, raised, pure, catch, ◌>>=◌, Ensures}
use haru_trade_manager.Performance.{Answer, answered, guarded, on_failure}

-- A call that ends with a value answers it.
pub guarded-Ensures :
    {W A : Type 0} (P : A → W → Type 0) (Q : Answer A → W → Type 0) (m : Act W A) (w : W)
    → Ensures P (m w)
    → ((a : A) (w' : W) → P a w' → Q (answered a) w')
    → Ensures Q (guarded m w)
guarded-Ensures {W} {A} P Q m w h k = go (m w) h
  where
    go :
        (r : Outcome A × W)
        → Ensures P r
        → Ensures Q (catch ((λ _. r) >>= λ a. pure (answered a)) (λ exc. on_failure exc.kind exc) w)
    go (ok a, w') h' = k a w' h'
    go (raised e, w') h' = absurd h'
