-- ===== src/DailyReport.antt =====
-- app/services/daily_report.py: the report of a day and of a week. Days are numbers; the texts of a day
-- and of a week, the order of texts, and what other tasks do to the marks while a report is sent, are
-- arguments.
pub mod Once
use Prim.Native.String.{String}
use text.Mathlib.Text.{◌==◌ as str_eq}
use haru_trade_manager.Common.{
  ℕ, zero, suc, ◌+◌, ◌-◌, max, Bool, true, false, Option, none, some, List, [], ◌∷◌, ◌++◌, map, Act,
  Outcome, ok, raised, pure, ◌>>=◌, ◌>>◌, if◌then◌else◌, ◌==◌, length, filter, sort_by, Dict,
  lookup, insert, truthy, fstring, join, show,
}
use haru_trade_manager.Domain.{Datetime}
use haru_trade_manager.Runtime.{RuntimeEvent, AlertSink, beside}

-- `last_job_snapshot`, as the texts that are shown of it: none or without a result or an error, a
-- result, or an error.
pub data Snapshot : Type 0 where
  no_snapshot : Snapshot
  with_result : (trade_count win_rate total_pnl sharpe_ratio mdd : String) → Snapshot
  with_error : String → Snapshot

pub record BacktestStatus : Type 0 where
  pub enabled : String
  pub last_status : String
  pub last_job_id : String
  pub snapshot : Snapshot

pub record StrategyItem : Type 0 where
  pub strategy_id : String
  pub total_pnl : String
  pub win_rate : String
  pub expectancy : String

pub record StrategySummary : Type 0 where
  pub is_ok : Bool
  pub error : String
  pub items : List StrategyItem

-- What the reporter is given: the alert sink, the providers with what a call of them gives, the events
-- of the safety manager, and the texts.
pub record Setup (G : Type 0) : Type 0 where
  pub alert_sink : Option (AlertSink G)
  pub backtest_status : Option (Outcome BacktestStatus)
  pub strategy_summary : Option (Outcome StrategySummary)
  pub events : List RuntimeEvent
  pub day_of : Datetime → ℕ
  pub iso : ℕ → String
  pub week_key : ℕ → String
  pub rank : String → ℕ

-- `_last_sent_day` and `_last_weekly_sent_key`
pub record Reporter : Type 0 where
  pub last_sent_day : Option ℕ
  pub last_weekly_sent_key : Option String

abbrev pub or_zero : Option ℕ → ℕ
or_zero none = 0
or_zero (some n) = n

-- The loop of `_summaries`.
unfoldable pub grouped : List RuntimeEvent → Dict ℕ → Dict ℕ
grouped [] counts = counts
grouped (e ∷ events) counts =
    grouped events (insert e.code (suc (or_zero (lookup e.code counts))) counts)

abbrev pub snapshot_lines : Snapshot → List String
snapshot_lines no_snapshot = []
snapshot_lines (with_result trade_count win_rate total_pnl sharpe_ratio mdd) =
    fstring (
      "- 자동백테스트결과: " ∷ "거래수=" ∷ trade_count ∷ " 승률=" ∷ win_rate ∷ " 손익=" ∷ total_pnl ∷ " 샤프="
      ∷ sharpe_ratio ∷ " 최대낙폭=" ∷ mdd ∷ [])
    ∷ []
snapshot_lines (with_error error) = fstring ("- 자동백테스트오류: " ∷ error ∷ []) ∷ []

-- `_backtest_lines`
unfoldable pub backtest_lines : Option (Outcome BacktestStatus) → List String
backtest_lines none = []
backtest_lines (some (raised exc)) = "- 자동백테스트: 사용불가" ∷ []
backtest_lines (some (ok status)) =
    fstring (
      "- 자동백테스트: 활성화=" ∷ status.enabled ∷ " 최근상태=" ∷ status.last_status ∷ " 최근작업="
      ∷ status.last_job_id ∷ [])
    ∷ snapshot_lines status.snapshot

abbrev pub item_line : String → StrategyItem → String
item_line title x = fstring (
    title ∷ x.strategy_id ∷ " 손익=" ∷ x.total_pnl ∷ " 승률=" ∷ x.win_rate ∷ " 기대값=" ∷ x.expectancy
    ∷ [])

-- `items[-1]`
abbrev pub bottom_of : StrategyItem → List StrategyItem → StrategyItem
bottom_of x [] = x
bottom_of x (y ∷ items) = bottom_of y items

abbrev pub item_lines : List StrategyItem → List String
item_lines [] = "- 전략요약: 데이터없음" ∷ []
item_lines (top ∷ []) = item_line "- 상위전략: " top ∷ []
item_lines (top ∷ x ∷ items) =
    item_line "- 상위전략: " top ∷ item_line "- 하위전략: " (bottom_of x items) ∷ []

-- `_strategy_lines`
unfoldable pub strategy_lines : Option (Outcome StrategySummary) → List String
strategy_lines none = []
strategy_lines (some (raised exc)) = "- 전략요약: 사용불가" ∷ []
strategy_lines (some (ok summary)) =
    if summary.is_ok
    then item_lines summary.items
    else fstring ("- 전략요약오류: " ∷ summary.error ∷ []) ∷ []

module _ {G : Type 0} (s : Setup G) where
  -- `events_on`
  abbrev pub events_on : ℕ → List RuntimeEvent
  events_on day = filter (λ e. s.day_of e.created_at == day) s.events

  -- `_summaries`
  unfoldable pub summaries : List RuntimeEvent → List String
  unfolding grouped
  summaries events =
      map (λ entry. fstring ("- " ∷ entry.0 ∷ ": " ∷ show entry.1 ∷ []))
        (sort_by (λ entry. s.rank entry.0) (grouped events []))

  -- `_build_template`
  unfoldable pub build_template : String → String → List RuntimeEvent → String
  unfolding summaries backtest_lines strategy_lines
  build_template title label events = join "\n" (
      (fstring (title ∷ " " ∷ label ∷ " - 장애 건수: " ∷ show (length events) ∷ []) ∷ [])
      ++ summaries events
      ++ backtest_lines s.backtest_status
      ++ strategy_lines s.strategy_summary)

  -- `build_report_text`
  unfoldable pub build_report_text : ℕ → String
  unfolding build_template
  build_report_text day = build_template "[일일 운영 리포트]" (s.iso day) (events_on day)

  abbrev pub events_from : ℕ → ℕ → List RuntimeEvent
  events_from start zero = []
  events_from start (suc n) = events_on start ++ events_from (suc start) n

  -- `build_weekly_report_text`, for a last day that is no less than the number of days
  unfoldable pub build_weekly_report_text : ℕ → ℕ → String
  unfolding build_template
  build_weekly_report_text end_day days =
      let start_day = end_day - (days - 1) in
      build_template "[주간 운영 리포트]" (fstring (s.iso start_day ∷ "~" ∷ s.iso end_day ∷ []))
        (events_from start_day (max days 1))

  module _ (others : G × Reporter → G × Reporter) where
    -- The answer of the sink, after the await in which other tasks run.
    abbrev pub awaited : AlertSink G → String → Act (G × Reporter) Bool
    awaited sink text w = let (r, w') = beside (sink.send_message text) w in (r, others w')

    abbrev pub note_if : Bool → (Reporter → Reporter) → Act (G × Reporter) Bool
    note_if is_ok f (g, r) = (ok is_ok, (g, if is_ok then f r else r))

    abbrev pub send_to :
        Option (AlertSink G) → String → (Reporter → Reporter) → Act (G × Reporter) Bool
    send_to none text f = pure false
    send_to (some sink) text f = awaited sink text >>= λ is_ok. note_if is_ok f

    -- `send_report`
    unfoldable pub send_report : ℕ → Act (G × Reporter) Bool
    unfolding build_report_text
    send_report day =
        send_to s.alert_sink (build_report_text day) (λ r. record r { last_sent_day = some day })

    abbrev pub is_day : Option ℕ → ℕ → Bool
    is_day none day = false
    is_day (some last) day = last == day

    -- `send_report_once_per_day`
    unfoldable pub send_report_once_per_day : ℕ → Act (G × Reporter) Bool
    unfolding send_report
    send_report_once_per_day day (g, r) =
        if is_day r.last_sent_day day then (ok false, (g, r)) else send_report day (g, r)

    -- `send_weekly_report`
    unfoldable pub send_weekly_report : ℕ → ℕ → Act (G × Reporter) Bool
    unfolding build_weekly_report_text
    send_weekly_report end_day days =
        send_to s.alert_sink (build_weekly_report_text end_day days)
          (λ r. record r { last_weekly_sent_key = some (s.week_key end_day) })

    abbrev pub is_key : Option String → String → Bool
    is_key none key = false
    is_key (some last) key = str_eq last key

    -- `send_weekly_report_once_per_week`
    unfoldable pub send_weekly_report_once_per_week : ℕ → ℕ → Act (G × Reporter) Bool
    unfolding send_weekly_report
    send_weekly_report_once_per_week end_day days (g, r) =
        if is_key r.last_weekly_sent_key (s.week_key end_day)
        then (ok false, (g, r))
        else send_weekly_report end_day days (g, r)
