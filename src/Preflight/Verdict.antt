-- ===== src/Preflight/Verdict.antt =====
-- What a preflight and a rehearsal that end well say.
use text.Mathlib.Text.{◌==◌ as str_eq}
use haru_trade_manager.Common.{
  ◌≡◌, refl, ap, sym, ◌∙◌, ℕ, ◌+◌, max, String, true, false, not, ◌&&◌, ◌||◌, Option, List, [], ◌∷◌,
  Outcome, ok, raised, pure, ltb, ◌==◌, length, arith, Double, strip, Ensures, Ensures-bind, ◌>>=◌,
  Bool, Bool-cases, inl, inr,
}
use haru_trade_manager.Runtime.{RuntimeState, beside}
use haru_trade_manager.LoopRuntime.{CycleReport, Metrics, Loops, run_cycles}
use haru_trade_manager.LoopRuntime.Health.{IsQuiet, IsCounted, failures, run_cycles-IsCounted}
use haru_trade_manager.Preflight.{
  run, run_rehearsal, Probes, Probed, PreflightReport, RehearsalReport, concluded, report_of,
  required_failed, policy_for, rehearse, after_preflight, count_ok, count_failed, tally,
}

module _ {F : Type 0} ⦃d : Double F⦄ {G : Type 0} (lower : String → String)
    (loops : Loops F G) where
  -- The preflight is passed just when trading is live and the runtime is not halted, and, before and
  -- while the market is open, the background loops run, there are tickers, and the broker answers.
  pub concluded-is_ok :
      (stage trading_mode : String) (runtime : RuntimeState) (background : Probed)
      (tickers : List String) (connectivity : Probed)
      → (concluded lower loops stage trading_mode runtime background tickers connectivity).is_ok ≡ (
          str_eq (lower trading_mode) "live"
          && not runtime.halted
          && (str_eq (lower (strip stage)) "post_market"
              || (background.is_well && ltb 0 (length tickers) && connectivity.is_well)))
  unfolding concluded report_of required_failed policy_for
  concluded-is_ok stage trading_mode runtime background tickers connectivity = ground arith

  count_ok-failed :
      (reports : List (CycleReport F))
      → (count_ok lower loops reports + count_failed lower loops reports ≡ length reports)
        × (count_failed lower loops reports ≡ failures reports)
  count_ok-failed [] = (omega arith, refl)
  count_ok-failed (r ∷ reports) = ground (arith, count_ok-failed reports)

  -- A rehearsal that was run: its numbers add up to the cycles, which are on the metrics, and it is
  -- well just when none of them failed.
  abbrev pub IsRehearsed : ℕ → Metrics F → RehearsalReport → Metrics F → Type 0
  IsRehearsed cycles m report m' =
      (report.preflight_ok ≡ true)
      × (report.succeeded + report.failed ≡ max cycles 1)
      × (m'.cycle_count ≡ m.cycle_count + max cycles 1)
      × (m'.error_count ≡ m.error_count + report.failed)
      × (report.is_ok ≡ (report.failed == 0))

  rehearse-IsRehearsed :
      (cycles : ℕ) (g : G) (m : Metrics F)
      → IsQuiet loops
      → Ensures (λ report w'. IsRehearsed cycles m report w'.1) (rehearse lower loops cycles (g, m))
  unfolding rehearse
  rehearse-IsRehearsed cycles g m quiet =
      Ensures-bind (λ reports w'. (length reports ≡ max cycles 1) × IsCounted m reports w'.1)
        (λ report w'. IsRehearsed cycles m report w'.1) (run_cycles loops (max cycles 1))
        (λ reports. pure (tally lower loops (max cycles 1) reports)) (g, m)
        (run_cycles-IsCounted loops (max cycles 1) g m quiet)
        (λ reports w' h.
          let (total, same) = count_ok-failed reports in
          (
            refl,
            total ∙ h.0,
            h.1.0 ∙ ap (λ n. m.cycle_count + n) h.0,
            h.1.1 ∙ ap (λ n. m.error_count + n) (sym same),
            refl,
          ))

  -- A rehearsal that the preflight stopped.
  abbrev pub IsStopped : ℕ → Metrics F → RehearsalReport → Metrics F → Type 0
  IsStopped cycles m report m' =
      (report.preflight_ok ≡ false) × (m' ≡ m) × (report.is_ok ≡ false) × (report.failed ≡ cycles)

  -- The report by the verdict of the preflight.
  abbrev pub IsReportOf : Bool → ℕ → Metrics F → RehearsalReport → Metrics F → Type 0
  IsReportOf true = IsRehearsed
  IsReportOf false = IsStopped

  -- What the preflight answers decides how the rehearsal ends; where it raises, so does the rehearsal,
  -- with its exception and the metrics as they were.
  abbrev pub IsReported :
      ℕ → Metrics F → Outcome PreflightReport → Outcome RehearsalReport × (G × Metrics F) → Type 0
  IsReported cycles m (ok preflight) r =
      Ensures (λ report w'. IsReportOf preflight.is_ok cycles m report w'.1) r
  IsReported cycles m (raised e) r = (r.0 ≡ raised e) × (r.1.1 ≡ m)

  after_preflight-IsReportOf :
      (cycles : ℕ) (preflight : PreflightReport) (g : G) (m : Metrics F)
      → IsQuiet loops
      → Ensures
          (λ report w'. IsReportOf preflight.is_ok cycles m report w'.1)
          (after_preflight lower loops cycles preflight (g, m))
  unfolding after_preflight
  after_preflight-IsReportOf cycles preflight g m quiet = elim (Bool-cases preflight.is_ok) [
    | inl passed ↦ rw passed (rehearse-IsRehearsed cycles g m quiet)
    | inr refused ↦ rw refused (refl, refl, refl, refl)
  ]

  -- Where the safety manager does not raise, the answer of the preflight decides how the rehearsal
  -- ends. It is passed: the cycles, at least one, are all run, however they fail, the numbers of the
  -- report add up to them and are on the metrics, and the rehearsal is well just when none of them
  -- failed. It is not passed: no cycle is run, every cycle counts as failed, and the rehearsal is not
  -- well. It raises: the rehearsal raises the same, and no cycle is run.
  pub run_rehearsal-IsReported :
      (probes : Probes G) (runtime : RuntimeState) (stage : String) (ticker : Option String)
      (cycles : ℕ) (g : G) (m : Metrics F)
      → IsQuiet loops
      → IsReported cycles m
          (run lower loops probes runtime stage ticker g).0
          (run_rehearsal lower loops probes runtime stage ticker cycles (g, m))
  unfolding run_rehearsal
  run_rehearsal-IsReported probes runtime stage ticker cycles g m quiet =
      by_answer (run lower loops probes runtime stage ticker g)
    where
      by_answer :
          (r : Outcome PreflightReport × G)
          → IsReported cycles m r.0
              ((beside (λ _. r) >>= after_preflight lower loops cycles) (g, m))
      by_answer (ok preflight, g') = after_preflight-IsReportOf cycles preflight g' m quiet
      by_answer (raised e, g') = (refl, refl)
