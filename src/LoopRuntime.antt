-- ===== src/LoopRuntime.antt =====
-- app/services/loop_runtime.py: one cycle of loops A, B and C, and the metrics of their health. The
-- loops are arguments; a cycle of theirs may raise.
pub mod Health
use haru_trade_manager.Common.{
  ℕ, zero, suc, ◌+◌, ◌-◌, ◌/◌, ◌%◌, String, Bool, true, false, Option, none, some, List, [], ◌∷◌,
  Act, Outcome, ok, raised, Failure, pure, catch, ◌>>=◌, ◌>>◌, if◌then◌else◌, ◌==◌, leb, Double, le,
  lt, sub, add, mul, div, of_nat, nought, max_f,
}
use haru_trade_manager.Domain.{Datetime}
use haru_trade_manager.Runtime.{beside}

-- What loop A reports.
pub record LoopAReport : Type 0 where
  pub executed_signal : Bool
  pub monitored_positions : ℕ
  pub closed_positions : ℕ
  pub failed_close_orders : ℕ

pub record CycleReport (F : Type 0) : Type 0 where
  pub is_ok : Bool
  pub loop_a : LoopAReport
  pub loop_b_signals : ℕ
  pub loop_c_ran : Bool
  pub duration_ms : F
  pub error : Option String

-- The metrics, with the slot in which loop C last ran and the total duration.
pub record Metrics (F : Type 0) : Type 0 where
  pub cycle_count : ℕ
  pub error_count : ℕ
  pub consecutive_errors : ℕ
  pub last_error : Option String
  pub last_started_at : Option Datetime
  pub last_completed_at : Option Datetime
  pub last_duration_ms : F
  pub avg_duration_ms : F
  pub max_duration_ms : F
  pub last_loop_b_signals : ℕ
  pub last_loop_c_ran : Bool
  pub last_loop_c_slot : Option ℕ
  pub total_duration_ms : F

-- The loops and the hooks over a world that the coordinator does not see into. `critical` is the
-- safety manager, where there is one.
pub record Loops (F G : Type 0) : Type 0 where
  pub loop_a : Act G LoopAReport
  pub pre_loop_b_hook : Option (Act G (Unit {0}))
  pub tickers : Act G (List String)
  pub loop_b : String → Act G ℕ
  pub loop_c : Act G (Unit {0})
  pub critical : Option (String → Act G (Unit {0}))
  pub now : G → Datetime
  pub monotonic : G → F
  pub maintenance_interval_minutes : ℕ

abbrev pub no_report : LoopAReport
no_report = record {
  executed_signal = false;
  monitored_positions = 0;
  closed_positions = 0;
  failed_close_orders = 0;
}

-- Minutes since the origin of the clock: the text of a slot names its minute, and no other.
abbrev pub slot_of : Datetime → ℕ
slot_of now = now / 60000000

abbrev pub is_slot : ℕ → Option ℕ → Bool
is_slot slot none = false
is_slot slot (some last) = slot == last

-- `if self.pre_loop_b_hook is not None`
abbrev pub run_hook : {G : Type 0} → Option (Act G (Unit {0})) → Act G (Unit {0})
run_hook none = pure tt
run_hook (some hook) = hook

abbrev pub alert : {G : Type 0} → Option (String → Act G (Unit {0})) → String → Act G (Unit {0})
alert none message = pure tt
alert (some critical) message = critical message

-- `loop_b_signals += await self.loop_b.run_once_for_ticker(ticker)`, for every ticker
unfoldable pub scan_tickers : {G : Type 0} → (String → Act G ℕ) → List String → Act G ℕ
scan_tickers scan [] = pure 0
scan_tickers scan (ticker ∷ tickers) =
    scan ticker >>= λ n. scan_tickers scan tickers >>= λ more. pure (n + more)

module _ {F : Type 0} ⦃d : Double F⦄ where
  -- `_should_run_loop_c`, for an interval above 0
  unfoldable pub should_run_loop_c : ℕ → Datetime → Metrics F → Bool × Metrics F
  should_run_loop_c interval now m =
      if (slot_of now % 60) % interval == 0
      then (if is_slot (slot_of now) m.last_loop_c_slot
          then (false, m)
          else (true, record m { last_loop_c_slot = some (slot_of now) }))
      else (false, m)

  -- The durations of a cycle that is over.
  abbrev pub timed : F → Metrics F → Metrics F
  timed duration_ms m =
      let total = add m.total_duration_ms duration_ms in
      record m {
        last_duration_ms = duration_ms;
        total_duration_ms = total;
        avg_duration_ms = div total (of_nat m.cycle_count);
        max_duration_ms = max_f m.max_duration_ms duration_ms;
      }

  -- `_record_success`
  unfoldable pub record_success : Datetime → F → ℕ → Bool → Metrics F → Metrics F
  record_success now duration_ms loop_b_signals loop_c_ran m = timed duration_ms (record m {
    cycle_count = suc m.cycle_count;
    consecutive_errors = 0;
    last_error = none;
    last_completed_at = some now;
    last_loop_b_signals = loop_b_signals;
    last_loop_c_ran = loop_c_ran;
  })

  -- `_record_failure`
  unfoldable pub record_failure : Datetime → F → String → Metrics F → Metrics F
  record_failure now duration_ms error m = timed duration_ms (record m {
    cycle_count = suc m.cycle_count;
    error_count = suc m.error_count;
    consecutive_errors = suc m.consecutive_errors;
    last_error = some error;
    last_completed_at = some now;
    last_loop_b_signals = 0;
    last_loop_c_ran = false;
  })

  module _ {G : Type 0} (loops : Loops F G) where
    -- `(self.monotonic_fn() - start_mono) * 1000`
    abbrev pub elapsed : F → G → F
    elapsed start g = mul (sub (loops.monotonic g) start) (of_nat 1000)

    abbrev pub decide_loop_c : Act (G × Metrics F) Bool
    unfolding should_run_loop_c
    decide_loop_c (g, m) =
        let (runs, m') = should_run_loop_c loops.maintenance_interval_minutes (loops.now g) m in
        (ok runs, (g, m'))

    abbrev pub run_loop_c : Bool → Act (G × Metrics F) (Unit {0})
    run_loop_c true = beside loops.loop_c
    run_loop_c false = pure tt

    abbrev pub succeed : F → LoopAReport → ℕ → Bool → Act (G × Metrics F) (CycleReport F)
    unfolding record_success
    succeed start report signals ran (g, m) =
        let duration = elapsed start g in
        (
          ok (record {
            is_ok = true;
            loop_a = report;
            loop_b_signals = signals;
            loop_c_ran = ran;
            duration_ms = duration;
            error = none;
          }),
          (g, record_success (loops.now g) duration signals ran m),
        )

    abbrev pub from_loop_c : F → LoopAReport → ℕ → Bool → Act (G × Metrics F) (CycleReport F)
    unfolding succeed
    from_loop_c start report signals ran = run_loop_c ran >>= λ _. succeed start report signals ran

    abbrev pub from_decision : F → LoopAReport → ℕ → Act (G × Metrics F) (CycleReport F)
    unfolding decide_loop_c from_loop_c
    from_decision start report signals = decide_loop_c >>= from_loop_c start report signals

    abbrev pub scan : Act G ℕ
    unfolding scan_tickers
    scan = loops.tickers >>= scan_tickers loops.loop_b

    abbrev pub from_loop_b : F → LoopAReport → Act (G × Metrics F) (CycleReport F)
    unfolding scan from_decision
    from_loop_b start report = beside scan >>= from_decision start report

    abbrev pub from_hook : F → LoopAReport → Act (G × Metrics F) (CycleReport F)
    unfolding from_loop_b
    from_hook start report =
        beside (run_hook loops.pre_loop_b_hook) >>= λ _. from_loop_b start report

    -- The body of the `try`.
    unfoldable pub try_cycle : F → Act (G × Metrics F) (CycleReport F)
    unfolding from_hook
    try_cycle start = beside loops.loop_a >>= from_hook start

    abbrev pub note_failure : F → Failure → Act (G × Metrics F) F
    unfolding record_failure
    note_failure start exc (g, m) =
        let duration = elapsed start g in
        (ok duration, (g, record_failure (loops.now g) duration exc.text m))

    abbrev pub failed_report : F → Failure → CycleReport F
    failed_report duration exc = record {
      is_ok = false;
      loop_a = no_report;
      loop_b_signals = 0;
      loop_c_ran = false;
      duration_ms = duration;
      error = some exc.text;
    }

    abbrev pub alert_failure : Failure → F → Act (G × Metrics F) (CycleReport F)
    alert_failure exc duration =
        beside (alert loops.critical exc.text) >>= λ _. pure (failed_report duration exc)

    -- The `except` block: the failure is recorded before the safety manager is called.
    unfoldable pub fail_cycle : F → Failure → Act (G × Metrics F) (CycleReport F)
    unfolding note_failure
    fail_cycle start exc = note_failure start exc >>= alert_failure exc

    -- `run_cycle`
    unfoldable pub run_cycle : Act (G × Metrics F) (CycleReport F)
    unfolding try_cycle fail_cycle
    run_cycle (g, m) =
        let start = loops.monotonic g in
        catch (try_cycle start) (fail_cycle start)
          (g, record m { last_started_at = some (loops.now g) })

    -- Cycles one after the other, and their reports.
    unfoldable pub run_cycles : ℕ → Act (G × Metrics F) (List (CycleReport F))
    unfolding run_cycle
    run_cycles zero = pure []
    run_cycles (suc n) = run_cycle >>= λ report. run_cycles n >>= λ reports. pure (report ∷ reports)
