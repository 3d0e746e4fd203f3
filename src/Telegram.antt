-- ===== src/Telegram.antt =====
-- app/services/telegram_command_service.py: the commands, over the settings and the runtime state.
-- What the providers answer is an argument, and so is the service that writes the settings.
pub mod Guarded
use text.Mathlib.Text.{◌==◌ as str_eq}
use haru_trade_manager.Common.{
  ℕ, String, Bool, true, false, not, ◌||◌, Option, none, some, List, [], ◌∷◌, Act, Outcome, ok,
  raised, Failure, ErrorKind, sql_error, key_error, value_error, other_error, pure, throw, lift,
  catch, ◌>>=◌, ◌>>◌, if◌then◌else◌, fstring, member, strip, truthy, starts_with, split_words, join,
  Dict, lookup,
}
use haru_trade_manager.Runtime.{
  PendingConfigChange, RuntimeState, pause_entry, pause_all, resume, beside,
}

-- The Protocol class `ConfigWriter`
pub record ConfigWriter (C : Type 0) : Type 0 where
  pub get_all : C → Dict String
  pub set : String → String → String → Act C (Unit {0})

pub record CommandResult : Type 0 where
  pub ok : Bool
  pub message : String

-- A paper report, as far as the command shows it; the metrics are already formatted, to three
-- digits, and to six for the error rate.
pub record PaperReport : Type 0 where
  pub ok : Bool
  pub error : String
  pub passed : Bool
  pub metrics : Dict String

-- What the providers answer at the time of the command, where there are providers; `str_of` is
-- `str(exc)`, and `sorted` sorts the items of a dict.
pub record Providers : Type 0 where
  pub report : Option (Outcome String)
  pub paper_report : Option (Outcome PaperReport)
  pub backtest_status : Option (Outcome (Dict String))
  pub runtime_status : Option (Outcome (Dict String))
  pub str_of : Failure → String
  pub sorted : Dict String → Dict String

abbrev pub confirm_required_keys : List String
confirm_required_keys =
    "position_size_max_pct" ∷ "position_size_min_pct" ∷ "risk_per_trade_pct" ∷ "daily_loss_pct"
    ∷ "stop_count" ∷ "cooldown_hours" ∷ "max_positions" ∷ "margin_ratio" ∷ "order_cancel_minutes"
    ∷ []

abbrev pub telegram_blocked_keys : List String
telegram_blocked_keys =
    "atr_period" ∷ "stop_atr_mult" ∷ "tp_atr_mult" ∷ "trail_atr_mult" ∷ "margin_close_priority" ∷ []

-- `st.get(key, default)`
abbrev get_or : String → String → Dict String → String
get_or default key st = elim (lookup key st) [ none ↦ default | some v ↦ v ]

abbrev show_bool : Bool → String
show_bool true = "True"
show_bool false = "False"

-- `_backtest_status_snippet`
unfoldable pub backtest_status_snippet : Option (Outcome (Dict String)) → Option String
backtest_status_snippet none = none
backtest_status_snippet (some (raised e)) = some "자동백테스트상태=사용불가, 자동백테스트작업=None"
backtest_status_snippet (some (ok st)) = some (
    fstring (
      "자동백테스트상태="
      ∷ get_or "알수없음" "last_status" st
      ∷ ", 자동백테스트작업="
      ∷ get_or "알수없음" "last_job_id" st
      ∷ []))

-- `_runtime_status_snippet`
unfoldable pub runtime_status_snippet : Option (Outcome (Dict String)) → Option String
runtime_status_snippet none = none
runtime_status_snippet (some (raised e)) = some "루프실행=알수없음, 루프사이클=알수없음, 루프최근지연ms=알수없음"
runtime_status_snippet (some (ok st)) = some (
    fstring (
      "루프실행="
      ∷ get_or "None" "loop_running" st
      ∷ ", 루프사이클="
      ∷ get_or "None" "loop_cycles" st
      ∷ ", 루프최근지연ms="
      ∷ get_or "None" "loop_last_ms" st
      ∷ []))

-- The suffix after a separator, where there is one.
abbrev with_suffix : String → String → Option String → String
with_suffix separator message none = message
with_suffix separator message (some suffix) = fstring (message ∷ separator ∷ suffix ∷ [])

abbrev pending_key : Option PendingConfigChange → String
pending_key none = "없음"
pending_key (some change) = change.key

abbrev accepted : String → CommandResult
accepted message = record { ok = true; message = message }

abbrev refused : String → CommandResult
refused message = record { ok = false; message = message }

-- The answer to `/status`
unfoldable pub status_message : Providers → RuntimeState → String
unfolding backtest_status_snippet runtime_status_snippet
status_message p s =
    with_suffix ", "
      (with_suffix ", "
        (fstring (
          "진입중지="
          ∷ show_bool s.entry_paused
          ∷ ", 전체중지="
          ∷ show_bool s.all_paused
          ∷ ", 비상정지="
          ∷ show_bool s.halted
          ∷ ", 변경대기="
          ∷ pending_key s.pending_change
          ∷ []))
        (runtime_status_snippet p.runtime_status))
      (backtest_status_snippet p.backtest_status)

abbrev pair_text : String × String → String
pair_text (key, value) = fstring (key ∷ "=" ∷ value ∷ [])

abbrev pair_texts : Dict String → List String
pair_texts [] = []
pair_texts (row ∷ rows) = pair_text row ∷ pair_texts rows

abbrev with_report : Providers → String → CommandResult
with_report p message =
    accepted (with_suffix "\n" message (backtest_status_snippet p.backtest_status))

-- The answer to `/report`
unfoldable pub handle_report : Providers → Option (Outcome String) → Outcome CommandResult
unfolding backtest_status_snippet
handle_report p none = ok (refused "리포트를 생성할 수 없습니다.")
handle_report p (some (raised e)) = raised e
handle_report p (some (ok message)) = ok (with_report p message)

abbrev paper_message : Providers → PaperReport → String
paper_message p report =
    with_suffix ", "
      (fstring (
        "페이퍼합격여부="
        ∷ show_bool report.passed
        ∷ ", 신호수="
        ∷ get_or "0" "total_signals" report.metrics
        ∷ ", 승률="
        ∷ get_or "0.000" "win_rate" report.metrics
        ∷ ", 샤프="
        ∷ get_or "0.000" "sharpe_ratio" report.metrics
        ∷ ", 최대낙폭="
        ∷ get_or "0.000" "mdd" report.metrics
        ∷ ", 오류율="
        ∷ get_or "0.000000" "error_rate" report.metrics
        ∷ []))
      (backtest_status_snippet p.backtest_status)

-- `_handle_paper_report`
unfoldable pub handle_paper_report :
    Providers → Option (Outcome PaperReport) → Outcome CommandResult
unfolding backtest_status_snippet
handle_paper_report p none = ok (refused "페이퍼 리포트를 생성할 수 없습니다.")
handle_paper_report p (some (raised e)) = raised e
handle_paper_report p (some (ok report)) =
    if report.ok
    then ok (accepted (paper_message p report))
    else ok (refused (fstring ("페이퍼 리포트 생성 실패: " ∷ report.error ∷ [])))

abbrev close_usage : CommandResult
close_usage = refused "사용법: /close [종목코드]|all"

abbrev close_parts : List String → CommandResult
close_parts (command ∷ ticker ∷ []) =
    if truthy (strip ticker)
    then accepted (fstring (strip ticker ∷ " 종목 청산 요청을 접수했습니다." ∷ []))
    else close_usage
close_parts _ = close_usage

-- `_handle_close`, which only answers
unfoldable pub handle_close : String → CommandResult
handle_close text =
    if str_eq text "/close all"
    then accepted "전체 포지션 청산 요청을 접수했습니다."
    else close_parts (split_words 1 text)

module _ {C : Type 0} (config : ConfigWriter C) (p : Providers) where
  -- `except (KeyError, ValueError) as exc`
  abbrev pub answer_refusal : ErrorKind → Failure → Act (C × RuntimeState) CommandResult
  answer_refusal key_error exc = pure (refused (p.str_of exc))
  answer_refusal value_error exc = pure (refused (p.str_of exc))
  answer_refusal _ exc = throw exc

  abbrev pub change_pending : (Option PendingConfigChange) → Act (C × RuntimeState) (Unit {0})
  change_pending pending (c, s) = (ok tt, (c, record s { pending_change = pending }))

  abbrev pub write : PendingConfigChange → Act (C × RuntimeState) (Unit {0})
  write change = beside (config.set change.key change.value change.changed_by)

  -- What follows a write that went through; a refusal is answered.
  abbrev pub write_then :
      PendingConfigChange
      → Act (C × RuntimeState) CommandResult
      → Act (C × RuntimeState) CommandResult
  write_then change next w =
      let (r, w') = write change w in
      elim r [ ok _ ↦ next w' | raised exc ↦ answer_refusal exc.kind exc w' ]

  unfoldable pub set_key : String → String → Act (C × RuntimeState) CommandResult
  set_key key value =
      if member key telegram_blocked_keys || starts_with "strategy." key
      then pure (refused (fstring (key ∷ " 항목은 웹 UI에서만 변경할 수 있습니다." ∷ [])))
      else (if member key confirm_required_keys
          then change_pending (some (record { key = key; value = value; changed_by = "telegram" }))
            >> pure
                (accepted (fstring ("확인 대기 중: " ∷ key ∷ "=" ∷ value ∷ ". /confirm 을 실행하세요." ∷ [])))
          else write_then (record { key = key; value = value; changed_by = "telegram" })
              (pure (accepted (fstring ("설정을 변경했습니다: " ∷ key ∷ "=" ∷ value ∷ [])))))

  abbrev pub set_parts : List String → Act (C × RuntimeState) CommandResult
  unfolding set_key
  set_parts (command ∷ key ∷ value ∷ []) = set_key key value
  set_parts _ = pure (refused "사용법: /set [키] [값]")

  -- `_handle_set`
  unfoldable pub handle_set : String → Act (C × RuntimeState) CommandResult
  handle_set text = set_parts (split_words 2 text)

  abbrev pub confirm : Option PendingConfigChange → Act (C × RuntimeState) CommandResult
  confirm none = pure (refused "확인 대기 중인 변경이 없습니다.")
  confirm (some change) =
      write_then change (change_pending none >> pure (accepted "대기 중이던 설정 변경을 적용했습니다."))

  -- `_confirm_pending`
  unfoldable pub confirm_pending : Act (C × RuntimeState) CommandResult
  confirm_pending (c, s) = confirm s.pending_change (c, s)

  abbrev pub update : (RuntimeState → RuntimeState) → String → Act (C × RuntimeState) CommandResult
  update change message (c, s) = (ok (accepted message), (c, change s))

  abbrev pub answer : (C × RuntimeState → CommandResult) → Act (C × RuntimeState) CommandResult
  answer f w = (ok (f w), w)

  -- The commands that change neither a setting nor the pending change.
  unfoldable pub handle_other : String → Act (C × RuntimeState) CommandResult
  handle_other text =
      if str_eq text "/pause" || str_eq text "/pause entry"
      then update pause_entry "진입 자동매매를 일시중지했습니다."
      else if str_eq text "/pause all"
      then update pause_all "전체 자동매매를 일시중지했습니다."
      else if str_eq text "/resume"
      then update resume "자동매매를 재개했습니다."
      else if str_eq text "/status"
      then answer (λ w. accepted (status_message p w.1))
      else if str_eq text "/settings"
      then answer (λ w. accepted (join ", " (pair_texts (p.sorted (config.get_all w.0)))))
      else if str_eq text "/report"
      then lift (handle_report p p.report)
      else if str_eq text "/paper_report"
      then lift (handle_paper_report p p.paper_report)
      else if starts_with "/close " text
      then pure (handle_close text)
      else pure (refused (fstring ("지원하지 않는 명령어입니다: " ∷ text ∷ [])))

  unfoldable pub handle_text : String → Act (C × RuntimeState) CommandResult
  unfolding confirm_pending handle_set handle_other
  handle_text text =
      if not (truthy text)
      then pure (refused "명령어가 비어 있습니다.")
      else if str_eq text "/confirm"
      then confirm_pending
      else if starts_with "/set " text
      then handle_set text
      else handle_other text

  -- `handle`
  unfoldable pub handle : String → Act (C × RuntimeState) CommandResult
  unfolding handle_text
  handle command = handle_text (strip command)

  -- Commands one after the other, whether or not each is answered.
  unfoldable pub handle_each : List String → C × RuntimeState → C × RuntimeState
  unfolding handle
  handle_each [] w = w
  handle_each (command ∷ commands) w = handle_each commands (handle command w).1
