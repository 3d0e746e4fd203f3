-- ===== src/Backtest/Scheduler/Daily.antt =====
-- The signals and the days of the scheduler.
use haru_trade_manager.Common.{
  ◌≡◌, refl, sym, ap, ◌∙◌, ◌⊎◌, ℕ, zero, suc, ◌+◌, ◌-◌, ◌≤◌, ◌<◌, String, Bool, true, false, Option,
  some, List, [], ◌∷◌, Outcome, ok, raised, ◌>>=◌, if◌then◌else◌, ltb, ◌==◌, length, drop, take,
  All, All-weaken, arith, Double, Bool-cases, inl, inr,
}
use haru_trade_manager.Domain.{Candle, Signal}
use haru_trade_manager.Backtest.Scheduler.{
  Look, Scheduler, Provider, Answer, ran_on, signals_from, build_signals, clamped, note_job, start,
  with_candles, trigger_now, trigger_at, is_triggered, jobs_started,
}

module _ {F : Type 0} ⦃d : Double F⦄ where
  length-take : (n : ℕ) (xs : List (Candle F)) → length (take n xs) ≤ n
  length-take zero xs = omega arith
  length-take (suc n) [] = omega arith
  length-take (suc n) (x ∷ xs) = omega (arith, length-take n xs)

  signals_from-All :
      (idx end : ℕ) (candles : List (Candle F))
      → idx + length candles ≤ end
      → (length (signals_from idx candles) ≡ length candles)
        × All (λ s. s.index < end) (signals_from idx candles)
  signals_from-All idx end [] h = (refl, tt)
  signals_from-All idx end (c ∷ candles) h =
      let (same, rest) = signals_from-All (suc idx) end candles (omega (arith, h)) in
      (ap suc same, (omega (arith, h), rest))

  -- There are at most `max_signals` signals, and each has a bar after its own: no trade of the
  -- backtest lacks the bar of its entry.
  pub build_signals-bounds :
      (max_signals : ℕ) (candles : List (Candle F))
      → (length (build_signals max_signals candles) ≤ max_signals)
        × All (λ s. suc s.index < length candles) (build_signals max_signals candles)
  unfolding build_signals
  build_signals-bounds max_signals candles =
      let end = length candles - 1 in
      let start = end - max_signals in
      let bars = take (end - start) (drop start candles) in
      let short = length-take (end - start) (drop start candles) in
      let (same, inside) = signals_from-All start end bars (omega (arith, short)) in
      (
        omega (arith, same, short),
        All-weaken (λ s. s.index < end) (λ s. suc s.index < length candles)
            (signals_from start bars) (λ s h. omega (arith, h)) inside,
      )

  module _ {G : Type 0} (provider : Provider F G) where
    -- A job was started, and its day noted; or none was, and the day is as before.
    abbrev IsNoted : Look → Option ℕ → Outcome Answer × (G × Scheduler) → Type 0
    IsNoted later last r =
        ((is_triggered provider r.0 ≡ true) × (r.1.1.last_run_date ≡ some later.day))
        ⊎ ((is_triggered provider r.0 ≡ false) × (r.1.1.last_run_date ≡ last))

    start-IsNoted :
        (reason : String) (later : Look) (candles : List (Candle F)) (signals : List (Signal F))
        (w : G × Scheduler)
        → IsNoted later w.1.last_run_date (start provider reason later candles signals w)
    start-IsNoted reason later candles signals (g, s) = go (
        (provider.slippage_pct >>= λ pct. provider.start_job candles signals (clamped provider pct))
          g)
      where
        go :
            (r : Outcome String × G)
            → IsNoted later s.last_run_date (
                ((λ (w : G × Scheduler). (r.0, (r.1, w.1)))
                    >>= note_job provider reason later (length signals))
                  (g, s))
        go (ok job_id, g') = inl (refl, refl)
        go (raised e, g') = inr (refl, refl)

    with_candles-IsNoted :
        (reason : String) (later : Look) (candles : List (Candle F)) (w : G × Scheduler)
        → IsNoted later w.1.last_run_date (with_candles provider reason later candles w)
    unfolding with_candles
    with_candles-IsNoted reason later candles w =
        let signals = build_signals w.1.max_signals candles in
        elim (Bool-cases (ltb (length candles) 2)) [
          | inl few ↦ rw few (inr (refl, refl))
          | inr enough ↦ rw enough (elim (Bool-cases (length signals == 0)) [
            | inl no_signals ↦ rw no_signals (inr (refl, refl))
            | inr has_signals ↦ rw has_signals (start-IsNoted reason later candles signals w)
          ])
        ]

    trigger_now-IsNoted :
        (reason : String) (later : Look) (w : G × Scheduler)
        → IsNoted later w.1.last_run_date (trigger_now provider reason later w)
    unfolding trigger_now
    trigger_now-IsNoted reason later (g, s) = go (provider.candles g)
      where
        go :
            (r : Outcome (List (Candle F)) × G)
            → IsNoted later s.last_run_date (
                ((λ (w : G × Scheduler). (r.0, (r.1, w.1))) >>= with_candles provider reason later)
                  (g, s))
        go (ok candles, g') = with_candles-IsNoted reason later candles (g', s)
        go (raised e, g') = inr (refl, refl)

    -- The same for a check, which starts nothing on a day that is noted.
    trigger_at-IsNoted :
        (enabled : Bool) (run_hour : ℕ) (last : Option ℕ) (now later : Look) (w : G × Scheduler)
        → IsNoted later w.1.last_run_date (trigger_at provider enabled run_hour last now later w)
          × (ran_on now.day last ≡ true
              → is_triggered provider (trigger_at provider enabled run_hour last now later w).0
                ≡ false)
    unfolding trigger_at
    trigger_at-IsNoted false run_hour last now later w = (inr (refl, refl), λ _. refl)
    trigger_at-IsNoted true run_hour last now later w = elim (Bool-cases (ltb now.hour run_hour)) [
      | inl early ↦ rw early (inr (refl, refl), λ _. refl)
      | inr due ↦ rw due (elim (Bool-cases (ran_on now.day last)) [
        | inl ran ↦ rw ran (inr (refl, refl), λ _. refl)
        | inr fresh ↦ rw fresh (trigger_now-IsNoted "scheduled" later w, λ ran. cc ran)
      ])
    ]

    count-daily :
        (day : ℕ) (last : Option ℕ) (now later : Look) (r : Outcome Answer × (G × Scheduler))
        (n : ℕ)
        → now.day ≡ day
        → later.day ≡ day
        → IsNoted later last r
        → (ran_on now.day last ≡ true → is_triggered provider r.0 ≡ false)
        → n ≤ (if ran_on day r.1.1.last_run_date then 0 else 1)
        → (if is_triggered provider r.0 then suc n else n) ≤ (if ran_on day last then 0 else 1)
    count-daily day last now later r n today same (inr (no_job, kept)) once h =
        rw no_job (rw kept at h)
    count-daily day last now later r n today same (inl (job, noted)) once h =
        let none_left : n ≤ 0 = (let h' = rw (noted, same) at h in ground (arith, h')) in
        elim (Bool-cases (ran_on now.day last)) [
          | inl ran ↦ cc (job, once ran)
          | inr fresh ↦
              rw (job, ap (λ k. ran_on k last) (sym today) ∙ fresh) (omega (arith, none_left))
        ]

    -- Of the checks that look at the clock on one day, and whatever the calls outside do, at most one
    -- starts a job, and none does where a job was started on that day before.
    pub jobs_started-daily :
        (day : ℕ) (looks : List (Look × Look)) (w : G × Scheduler)
        → All (λ l. (l.0.day ≡ day) × (l.1.day ≡ day)) looks
        → jobs_started provider looks w ≤ (if ran_on day w.1.last_run_date then 0 else 1)
    unfolding jobs_started
    jobs_started-daily day [] w h = omega arith
    jobs_started-daily day ((now, later) ∷ looks) (g, s) ((today, same), rest) =
        let r =
          trigger_at provider s.enabled s.run_hour s.last_run_date now later
            (g, record s { last_checked_at = some now.time }) in
        let (noted, once) =
          trigger_at-IsNoted s.enabled s.run_hour s.last_run_date now later
            (g, record s { last_checked_at = some now.time }) in
        count-daily day s.last_run_date now later r (jobs_started provider looks r.1) today same
          noted once (jobs_started-daily day looks r.1 rest)
