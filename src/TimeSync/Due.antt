-- ===== src/TimeSync/Due.antt =====
-- When the server is asked, and what is kept of the answer.
use haru_trade_manager.Common.{
  ◌≡◌,
  refl,
  ◌⊎◌,
  inl,
  inr,
  true,
  false,
  Option,
  none,
  some,
  Outcome,
  ok,
  raised,
  pure,
  After,
  After-bind,
  Bool-cases,
  Int.{ℤ},
}
use haru_trade_manager.Runtime.{beside}
use haru_trade_manager.Domain.{Datetime}
use haru_trade_manager.TimeSync.{
  SyncConfig, TimeSync, ServerTime, date_of, in_window, is_synced, is_too_soon, keep_answer,
  sync_offset_seconds, attempt_at, sync_if_due_pre_market,
}

module _ {G : Type 0} (config : SyncConfig) (server : ServerTime G) (s : TimeSync) where
  -- Nothing was asked: the world and the state are those before.
  abbrev pub IsIdle : G → Outcome (Option ℤ) × (G × TimeSync) → Type 0
  IsIdle g (r, w) = w ≡ (g, s)

  -- The server's answer is kept.
  abbrev pub IsKept : ℤ → G × TimeSync → Type 0
  IsKept offset (g', s') =
      (s'.offset ≡ offset)
      × (s'.last_synced_date ≡ some (date_of (server.local_now g')))
      × (s'.last_attempt_at ≡ some (server.local_now g'))

  abbrev pub IsAnswered : Option ℤ → G × TimeSync → Type 0
  IsAnswered none w = ⊥
  IsAnswered (some offset) w = IsKept offset w

  -- After an attempt at this time: where the server answered, the offset is that of its answer and
  -- the day counts as synced; where it raised, only the attempt is kept.
  abbrev pub IsAttempt : Datetime → Outcome (Option ℤ) × (G × TimeSync) → Type 0
  IsAttempt now = After IsAnswered (λ _ w. w.1 ≡ record s { last_attempt_at = some now })

  attempt_at-IsAttempt :
      (now : Datetime) (g : G) → IsAttempt now (attempt_at config server now (g, s))
  unfolding sync_offset_seconds keep_answer
  attempt_at-IsAttempt now g =
      After-bind IsKept IsAnswered (λ _ w. w.1 ≡ tried) (sync_offset_seconds config server)
        (λ offset. pure (some offset)) (g, tried)
        (After-bind (λ _ _. Unit) IsKept (λ _ w. w.1 ≡ tried) (beside server.get_server_time)
          (keep_answer config server) (g, tried) (asked (server.get_server_time g))
          (λ t (g', s') _. (refl, refl, refl)))
        (λ offset w kept. kept)
    where
      tried : TimeSync
      tried = record s { last_attempt_at = some now }

      asked :
          (r : Outcome Datetime × G)
          → After {W = G × TimeSync} (λ _ _. Unit) (λ _ w. w.1 ≡ tried) (r.0, (r.1, tried))
      asked (ok t, g') = tt
      asked (raised e, g') = refl

  -- The server is asked only inside the window before the market opens, on a day that is not
  -- synced, and no sooner than the retry interval after the last attempt; otherwise nothing changes.
  -- Where it answers, the offset that is returned is kept and the day counts as synced; where it
  -- raises, only the time of the attempt is kept.
  pub sync_if_due_lem :
      (g : G)
      → let now = server.local_now g in
        let r = sync_if_due_pre_market config server (g, s) in
        IsIdle g r
        ⊎ (in_window config now ≡ true)
          × (is_synced s.last_synced_date now ≡ false)
          × (is_too_soon config s.last_attempt_at now ≡ false)
          × IsAttempt now r
  unfolding sync_if_due_pre_market
  sync_if_due_lem g =
      let now = server.local_now g in
      elim (Bool-cases (in_window config now)) [
        | inr out ↦ rw out (inl refl)
        | inl inside ↦ rw inside (elim (Bool-cases (is_synced s.last_synced_date now)) [
          | inl done ↦ rw done (inl refl)
          | inr fresh ↦ rw fresh (elim (Bool-cases (is_too_soon config s.last_attempt_at now)) [
            | inl soon ↦ rw soon (inl refl)
            | inr late ↦ rw late (inr (refl, refl, refl, attempt_at-IsAttempt now g))
          ])
        ])
      ]
