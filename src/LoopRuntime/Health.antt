-- ===== src/LoopRuntime/Health.antt =====
-- The metrics of the coordinator against the reports of its cycles.
use haru_trade_manager.Common.{
  ◌≡◌, refl, ap, ◌∙◌, ℕ, zero, suc, ◌+◌, String, Bool, true, false, some, List, [], ◌∷◌, Act,
  Outcome, ok, raised, Failure, pure, ◌>>=◌, if◌then◌else◌, length, arith, Double, After,
  After-bind, Ensures, Ensures-bind, Ensures-catch, if_then_else-P, ◌==◌, ◌%◌,
}
use haru_trade_manager.Runtime.{beside}
use haru_trade_manager.LoopRuntime.{
  Metrics, Loops, CycleReport, LoopAReport, alert, run_hook, from_hook, from_loop_b, scan,
  from_decision, from_loop_c, should_run_loop_c, slot_of, is_slot, record_success, record_failure,
  decide_loop_c, run_loop_c, succeed, try_cycle, note_failure, alert_failure, failed_report,
  fail_cycle, run_cycle, run_cycles,
}

module _ {F : Type 0} where
  abbrev pub failures : List (CycleReport F) → ℕ
  failures [] = 0
  failures (r ∷ reports) = let rest = failures reports in if r.is_ok then rest else suc rest

  -- The failed cycles at the end of the reports, after `n` that came before.
  abbrev pub streak : ℕ → List (CycleReport F) → ℕ
  streak n [] = n
  streak n (r ∷ reports) = streak (if r.is_ok then 0 else suc n) reports

  -- The metrics count the reports on top of what they were.
  abbrev pub IsCounted : Metrics F → List (CycleReport F) → Metrics F → Type 0
  IsCounted m reports m' =
      (m'.cycle_count ≡ m.cycle_count + length reports)
      × (m'.error_count ≡ m.error_count + failures reports)
      × (m'.consecutive_errors ≡ streak m.consecutive_errors reports)

  IsCounted-cons :
      (m m' m'' : Metrics F) (r : CycleReport F) (reports : List (CycleReport F))
      → IsCounted m (r ∷ []) m'
      → IsCounted m' reports m''
      → IsCounted m (r ∷ reports) m''
  IsCounted-cons m m' m'' r reports (a, b, c) (a', b', c') =
      (omega (arith, a, a'), ground arith, c' ∙ ap (λ n. streak n reports) c)

module _ {F : Type 0} {G : Type 0} where
  abbrev Same : Metrics F → G × Metrics F → Type 0
  Same m w =
      (w.1.cycle_count ≡ m.cycle_count)
      × (w.1.error_count ≡ m.error_count)
      × (w.1.consecutive_errors ≡ m.consecutive_errors)

  beside-Same :
      {A : Type 0} (act : Act G A) (m : Metrics F) (w : G × Metrics F)
      → Same m w
      → After (λ _ w'. Same m w') (λ _ w'. Same m w') (beside act w)
  beside-Same {A} act m (g, s) same = go (act g)
    where
      go :
          (r : Outcome A × G)
          → After {W = G × Metrics F} (λ _ w'. Same m w') (λ _ w'. Same m w') (r.0, (r.1, s))
      go (ok a, g') = same
      go (raised e, g') = same

module _ {F : Type 0} ⦃d : Double F⦄ {G : Type 0} (loops : Loops F G) where
  decide-Same :
      (m : Metrics F) (w : G × Metrics F)
      → Same m w
      → After (λ _ w'. Same m w') (λ _ w'. Same m w') (decide_loop_c loops w)
  unfolding decide_loop_c should_run_loop_c
  decide-Same m (g, s) same =
      if_then_else-P (λ (r : Bool × Metrics F). Same {G = G} m (g, r.1))
        ((slot_of (loops.now g) % 60) % loops.maintenance_interval_minutes == 0) _ _
        (λ _.
          if_then_else-P (λ (r : Bool × Metrics F). Same {G = G} m (g, r.1))
            (is_slot (slot_of (loops.now g)) s.last_loop_c_slot) _ _ (λ _. same) (λ _. same))
        (λ _. same)

  Failed : Metrics F → Failure → G × Metrics F → Type 0
  Failed m e w = Same m w

  Counted : Metrics F → CycleReport F → G × Metrics F → Type 0
  Counted m report w = IsCounted m (report ∷ []) w.1

  succeed-Counted :
      (start : F) (report : LoopAReport) (signals : ℕ) (ran : Bool) (m : Metrics F)
      (w : G × Metrics F)
      → Same m w
      → After (Counted m) (Failed m) (succeed loops start report signals ran w)
  unfolding succeed record_success Counted
  succeed-Counted start report signals ran m (g, s) (a, b, c) =
      (omega (arith, a), omega (arith, b), refl)

  run_loop_c-Same :
      (ran : Bool) (m : Metrics F) (w : G × Metrics F)
      → Same m w
      → After (λ _ w'. Same m w') (Failed m) (run_loop_c loops ran w)
  unfolding Failed
  run_loop_c-Same true m w same = beside-Same loops.loop_c m w same
  run_loop_c-Same false m w same = same

  try_cycle-After :
      (start : F) (m : Metrics F) (w : G × Metrics F)
      → Same m w
      → After (Counted m) (Failed m) (try_cycle loops start w)
  unfolding try_cycle from_hook from_loop_b from_decision from_loop_c Failed
  try_cycle-After start m w same =
      After-bind (λ _ w'. Same m w') (Counted m) (Failed m) (beside loops.loop_a)
        (from_hook loops start) w (beside-Same loops.loop_a m w same)
        (λ report w' h.
          After-bind (λ _ w'. Same m w') (Counted m) (Failed m)
            (beside (run_hook loops.pre_loop_b_hook)) (λ _. from_loop_b loops start report) w'
            (beside-Same (run_hook loops.pre_loop_b_hook) m w' h)
            (λ _ w' h.
              After-bind (λ _ w'. Same m w') (Counted m) (Failed m) (beside (scan loops))
                (from_decision loops start report) w' (beside-Same (scan loops) m w' h)
                (λ signals w' h.
                  After-bind (λ _ w'. Same m w') (Counted m) (Failed m) (decide_loop_c loops)
                    (from_loop_c loops start report signals) w' (decide-Same m w' h)
                    (λ ran w' h.
                      After-bind (λ _ w'. Same m w') (Counted m) (Failed m) (run_loop_c loops ran)
                        (λ _. succeed loops start report signals ran) w'
                        (run_loop_c-Same ran m w' h)
                        (λ _ w' h. succeed-Counted start report signals ran m w' h)))))

  -- The safety manager, where there is one, does not raise.
  abbrev pub IsQuiet : Type 0
  IsQuiet = (message : String) (g : G) → Ensures (λ _ _. Unit) (alert loops.critical message g)

  -- A failed cycle is on the metrics.
  Noted : Metrics F → G × Metrics F → Type 0
  Noted m w =
      (w.1.cycle_count ≡ suc m.cycle_count)
      × (w.1.error_count ≡ suc m.error_count)
      × (w.1.consecutive_errors ≡ suc m.consecutive_errors)

  alert-Noted :
      (message : String) (m : Metrics F) (w : G × Metrics F)
      → IsQuiet
      → Noted m w
      → Ensures (λ _ w'. Noted m w') (beside (alert loops.critical message) w)
  unfolding Noted
  alert-Noted message m (g, s) quiet noted = go (alert loops.critical message g) (quiet message g)
    where
      go :
          (r : Outcome (Unit {0}) × G)
          → Ensures (λ _ _. Unit) r
          → Ensures {W = G × Metrics F} (λ _ w'. Noted m w') (r.0, (r.1, s))
      go (ok _, g') h = noted
      go (raised e, g') h = absurd h

  fail_cycle-Ensures :
      (start : F) (exc : Failure) (m : Metrics F) (w : G × Metrics F)
      → IsQuiet
      → Same m w
      → Ensures (Counted m) (fail_cycle loops start exc w)
  unfolding fail_cycle note_failure record_failure Counted Noted
  fail_cycle-Ensures start exc m w quiet (a, b, c) =
      Ensures-bind (λ _ w'. Noted m w') (Counted m) (note_failure loops start exc)
        (alert_failure loops exc) w (ap suc a, ap suc b, ap suc c)
        (λ duration w' noted.
          Ensures-bind (λ _ w'. Noted m w') (Counted m) (beside (alert loops.critical exc.text))
            (λ _. pure (failed_report loops duration exc)) w'
            (alert-Noted exc.text m w' quiet noted)
            (λ _ w' h. (omega (arith, h.0), omega (arith, h.1), h.2)))

  run_cycle-Ensures :
      (m : Metrics F) (g : G) → IsQuiet → Ensures (Counted m) (run_cycle loops (g, m))
  unfolding run_cycle Failed
  run_cycle-Ensures m g quiet =
      Ensures-catch (Counted m) (Counted m) (Failed m) (try_cycle loops (loops.monotonic g))
        (fail_cycle loops (loops.monotonic g))
        (g, record m { last_started_at = some (loops.now g) })
        (try_cycle-After (loops.monotonic g) m
          (g, record m { last_started_at = some (loops.now g) }) (refl, refl, refl))
        (λ _ _ h. h) (λ e w' h. fail_cycle-Ensures (loops.monotonic g) e m w' quiet h)

  -- Where the safety manager does not raise: however the loops, the hook and the list of tickers
  -- fail, `n` cycles run to their end and give `n` reports, and the metrics count them: all cycles,
  -- the failed ones, and the failed ones since the last that went well.
  pub run_cycles-IsCounted :
      (n : ℕ) (g : G) (m : Metrics F)
      → IsQuiet
      → Ensures
          (λ reports w'. (length reports ≡ n) × IsCounted m reports w'.1)
          (run_cycles loops n (g, m))
  unfolding run_cycles
  run_cycles-IsCounted zero g m quiet = (refl, (omega arith, omega arith, refl))
  run_cycles-IsCounted (suc n) g m quiet =
      Ensures-bind (Counted m) (λ reports w'. (length reports ≡ suc n) × IsCounted m reports w'.1)
        (run_cycle loops) (λ report. run_cycles loops n >>= λ reports. pure (report ∷ reports))
        (g, m) (run_cycle-Ensures m g quiet)
        (λ report w' first.
          Ensures-bind (λ reports w''. (length reports ≡ n) × IsCounted w'.1 reports w''.1)
            (λ reports w''. (length reports ≡ suc n) × IsCounted m reports w''.1)
            (run_cycles loops n) (λ reports. pure (report ∷ reports)) w'
            (run_cycles-IsCounted n w'.0 w'.1 quiet)
            (λ reports w'' h. (
              ap suc h.0,
              IsCounted-cons m w'.1 w''.1 report reports (unfold Counted in first) h.1,
            )))
