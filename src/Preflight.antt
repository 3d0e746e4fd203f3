-- ===== src/Preflight.antt =====
-- app/services/live_preflight.py: the checks before live trading, and a rehearsal of some cycles. What
-- is probed from outside is an argument, and `lower` is `str.lower`.
pub mod Verdict
use text.Mathlib.Text.{◌==◌ as str_eq}
use haru_trade_manager.Common.{
  ℕ, zero, suc, ◌+◌, max, String, Bool, true, false, not, ◌&&◌, Option, none, some, List, [], ◌∷◌,
  Act, Outcome, ok, raised, pure, ◌>>=◌, if◌then◌else◌, ltb, ◌==◌, length, fstring, strip, join,
  show, Dict, lookup, Double,
}
use haru_trade_manager.Runtime.{RuntimeState, beside}
use haru_trade_manager.LoopRuntime.{CycleReport, Metrics, Loops, run_cycles}

pub record PreflightCheck : Type 0 where
  pub key : String
  pub is_ok : Bool
  pub detail : String
  pub required : Bool

pub record Policy : Type 0 where
  pub require_background : Bool
  pub require_tickers : Bool
  pub require_connectivity : Bool

-- The parts of the answer that the program reads: `actions` and the keys of the failed checks.
pub record PreflightReport : Type 0 where
  pub is_ok : Bool
  pub stage : String
  pub policy : Policy
  pub checks : List PreflightCheck
  pub failed_checks : List String
  pub actions : List String

pub record RehearsalReport : Type 0 where
  pub is_ok : Bool
  pub cycles : ℕ
  pub succeeded : ℕ
  pub failed : ℕ
  pub preflight_ok : Bool
  pub errors : List String

-- What is probed: whether it is well, and the text that shows it.
pub record Probed : Type 0 where
  pub is_well : Bool
  pub text : String

pub record Probes (G : Type 0) : Type 0 where
  pub trading_mode : String
  pub background_running : Act G Probed
  pub connectivity : Option String → Act G Probed

abbrev pub strict : Policy
strict = record { require_background = true; require_tickers = true; require_connectivity = true }

abbrev pub relaxed : Policy
relaxed = record {
  require_background = false;
  require_tickers = false;
  require_connectivity = false;
}

-- `_policy_for`: an unknown stage has the policy of the market.
unfoldable pub policy_for : (String → String) → String → Policy
policy_for lower stage = if str_eq (lower (strip stage)) "post_market" then relaxed else strict

-- `self.runtime.halt_reason or "ok"`
abbrev pub reason_or_ok : Option String → String
reason_or_ok none = "ok"
reason_or_ok (some reason) = if str_eq reason "" then "ok" else reason

abbrev pub check_list :
    (String → String) → Policy → String → RuntimeState → Probed → ℕ → Probed → List PreflightCheck
check_list lower policy trading_mode runtime background tickers connectivity =
    record {
      key = "trading_mode_live";
      is_ok = str_eq (lower trading_mode) "live";
      detail = fstring ("TRADING_MODE=" ∷ trading_mode ∷ []);
      required = true;
    }
    ∷ record {
      key = "runtime_not_halted";
      is_ok = not runtime.halted;
      detail = reason_or_ok runtime.halt_reason;
      required = true;
    }
    ∷ record {
      key = "background_running";
      is_ok = if policy.require_background then background.is_well else true;
      detail = fstring ("running=" ∷ background.text ∷ []);
      required = policy.require_background;
    }
    ∷ record {
      key = "runtime_tickers_present";
      is_ok = ltb 0 tickers;
      detail = fstring ("count=" ∷ show tickers ∷ []);
      required = policy.require_tickers;
    }
    ∷ record {
      key = "kiwoom_connectivity";
      is_ok = connectivity.is_well;
      detail = connectivity.text;
      required = policy.require_connectivity;
    }
    ∷ []

-- `[c for c in checks if c.required and not c.ok]`
unfoldable pub required_failed : List PreflightCheck → List PreflightCheck
required_failed [] = []
required_failed (c ∷ checks) =
    let rest = required_failed checks in if c.required && not c.is_ok then c ∷ rest else rest

abbrev pub action_map : Dict String
action_map =
    ("trading_mode_live", "TRADING_MODE를 live로 변경한 뒤 서비스를 재시작하세요.")
    ∷ ("runtime_not_halted", "정지 사유를 해소한 뒤 /telegram /resume 명령으로 재개하세요.")
    ∷ ("background_running", "/system/loops/start 로 백그라운드 루프를 시작하세요.")
    ∷ ("runtime_tickers_present", "유니버스를 먼저 초기화/리밸런싱하세요. (최초 실행 시 코스피200+코스닥150 자동 초기화)")
    ∷ ("kiwoom_connectivity", "연결 점검을 실행하고 키움 인증정보/네트워크를 확인하세요.")
    ∷ []

abbrev pub add_action : Option String → List String → List String
add_action none actions = actions
add_action (some action) actions = action ∷ actions

-- `_actions`
unfoldable pub actions_for : List PreflightCheck → List String
actions_for [] = []
actions_for (c ∷ failed) = add_action (lookup c.key action_map) (actions_for failed)

abbrev pub keys_of : List PreflightCheck → List String
keys_of [] = []
keys_of (c ∷ failed) = c.key ∷ keys_of failed

-- The answer of `run`, from the checks.
unfoldable pub report_of : String → Policy → List PreflightCheck → PreflightReport
unfolding required_failed actions_for
report_of stage policy checks =
    let failed = required_failed checks in
    record {
      is_ok = length failed == 0;
      stage = stage;
      policy = policy;
      checks = checks;
      failed_checks = keys_of failed;
      actions = actions_for failed;
    }

module _ {F : Type 0} ⦃d : Double F⦄ {G : Type 0} (lower : String → String)
    (loops : Loops F G) where
  abbrev pub concluded :
      String → String → RuntimeState → Probed → List String → Probed → PreflightReport
  unfolding report_of policy_for
  concluded stage trading_mode runtime background tickers connectivity =
      report_of stage (policy_for lower stage) (
        check_list lower (policy_for lower stage) trading_mode runtime background (length tickers)
          connectivity)

  -- `run`
  unfoldable pub run : Probes G → RuntimeState → String → Option String → Act G PreflightReport
  unfolding concluded
  run probes runtime stage ticker = probes.background_running >>= λ background.
      loops.tickers >>= λ tickers. probes.connectivity ticker >>= λ connectivity.
      pure (concluded stage probes.trading_mode runtime background tickers connectivity)

  abbrev pub add_error : Option String → List String → List String
  add_error none errors = errors
  add_error (some error) errors = if str_eq error "" then errors else error ∷ errors

  abbrev pub count_ok : List (CycleReport F) → ℕ
  count_ok [] = 0
  count_ok (r ∷ reports) = let rest = count_ok reports in if r.is_ok then suc rest else rest

  abbrev pub count_failed : List (CycleReport F) → ℕ
  count_failed [] = 0
  count_failed (r ∷ reports) = let rest = count_failed reports in if r.is_ok then rest else suc rest

  abbrev pub errors_of : List (CycleReport F) → List String
  errors_of [] = []
  errors_of (r ∷ reports) =
      let rest = errors_of reports in if r.is_ok then rest else add_error r.error rest

  abbrev pub tally : ℕ → List (CycleReport F) → RehearsalReport
  tally cycles reports = record {
    is_ok = count_failed reports == 0;
    cycles = cycles;
    succeeded = count_ok reports;
    failed = count_failed reports;
    preflight_ok = true;
    errors = errors_of reports;
  }

  abbrev pub no_rehearsal : ℕ → PreflightReport → RehearsalReport
  no_rehearsal cycles preflight = record {
    is_ok = false;
    cycles = cycles;
    succeeded = 0;
    failed = cycles;
    preflight_ok = false;
    errors = fstring ("사전점검실패: " ∷ join ", " preflight.failed_checks ∷ []) ∷ [];
  }

  -- The cycles of the rehearsal, at least one, and what came of them.
  unfoldable pub rehearse : ℕ → Act (G × Metrics F) RehearsalReport
  rehearse cycles =
      run_cycles loops (max cycles 1) >>= λ reports. pure (tally (max cycles 1) reports)

  abbrev pub after_preflight : ℕ → PreflightReport → Act (G × Metrics F) RehearsalReport
  unfolding rehearse
  after_preflight cycles preflight =
      if preflight.is_ok then rehearse cycles else pure (no_rehearsal cycles preflight)

  -- `run_rehearsal`
  unfoldable pub run_rehearsal :
      Probes G → RuntimeState → String → Option String → ℕ → Act (G × Metrics F) RehearsalReport
  unfolding run after_preflight
  run_rehearsal probes runtime stage ticker cycles =
      beside (run probes runtime stage ticker) >>= after_preflight cycles
