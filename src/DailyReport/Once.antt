-- ===== src/DailyReport/Once.antt =====
-- The mark that a report leaves, whatever other tasks do while it is sent.
use text.Mathlib.TextPositions.{eq_refl}
use haru_trade_manager.Common.{
  ◌≡◌, arith, ℕ, String, Bool, true, false, Option, none, some, Outcome, ok, raised, ◌>>=◌,
  if◌then◌else◌,
}
use haru_trade_manager.Runtime.{AlertSink}
use haru_trade_manager.DailyReport.{
  Setup, Reporter, is_day, is_key, note_if, send_to, build_report_text, send_report,
  send_report_once_per_day, build_weekly_report_text, send_weekly_report,
  send_weekly_report_once_per_week,
}

module _ {G : Type 0} (s : Setup G) (others : G × Reporter → G × Reporter) where
  -- A report that went out has left its mark.
  abbrev IsMarked : (Reporter → Bool) → Outcome Bool × (G × Reporter) → Type 0
  IsMarked test (ok true, (g, r)) = test r ≡ true
  IsMarked test (ok false, w) = Unit
  IsMarked test (raised e, w) = Unit

  send_to-IsMarked :
      (test : Reporter → Bool) (note : Reporter → Reporter) (sink : Option (AlertSink G))
      (text : String) (w : G × Reporter)
      → ((r : Reporter) → test (note r) ≡ true)
      → IsMarked test (send_to s others sink text note w)
  send_to-IsMarked test note none text w h = tt
  send_to-IsMarked test note (some sink) text (g, r) h = go (sink.send_message text g)
    where
      marks : (is_ok : Bool) (w : G × Reporter) → IsMarked test (note_if s others is_ok note w)
      marks true (g', r') = h r'
      marks false w' = tt

      go :
          (x : Outcome Bool × G)
          → IsMarked test (
              ((λ (_ : G × Reporter). (x.0, others (x.1, r))) >>= λ is_ok.
              note_if s others is_ok note)
                (g, r))
      go (ok is_ok, g') = marks is_ok (others (g', r))
      go (raised e, g') = tt

  -- When a call for a day answers that its report went out, the day is marked, so that a call for it
  -- that begins before another day is marked sends nothing.
  pub send_report_once_per_day-IsMarked :
      (day : ℕ) (g : G) (r : Reporter)
      → IsMarked
          (λ r'. is_day s others r'.last_sent_day day)
          (send_report_once_per_day s others day (g, r))
  unfolding send_report_once_per_day send_report
  send_report_once_per_day-IsMarked day g r = by_test (is_day s others r.last_sent_day day)
    where
      by_test :
          (done : Bool)
          → IsMarked
              (λ r'. is_day s others r'.last_sent_day day)
              (if done then (ok false, (g, r)) else send_report s others day (g, r))
      by_test true = tt
      by_test false =
          send_to-IsMarked (λ r'. is_day s others r'.last_sent_day day)
            (λ r'. record r' { last_sent_day = some day }) s.alert_sink (build_report_text s day)
            (g, r) (λ r'. ground arith)

  -- The same for the key of a week.
  pub send_weekly_report_once_per_week-IsMarked :
      (day days : ℕ) (g : G) (r : Reporter)
      → IsMarked
          (λ r'. is_key s others r'.last_weekly_sent_key (s.week_key day))
          (send_weekly_report_once_per_week s others day days (g, r))
  unfolding send_weekly_report_once_per_week send_weekly_report
  send_weekly_report_once_per_week-IsMarked day days g r =
      by_test (is_key s others r.last_weekly_sent_key (s.week_key day))
    where
      by_test :
          (done : Bool)
          → IsMarked
              (λ r'. is_key s others r'.last_weekly_sent_key (s.week_key day))
              (if done then (ok false, (g, r)) else send_weekly_report s others day days (g, r))
      by_test true = tt
      by_test false =
          send_to-IsMarked (λ r'. is_key s others r'.last_weekly_sent_key (s.week_key day))
            (λ r'. record r' { last_weekly_sent_key = some (s.week_key day) }) s.alert_sink
            (build_weekly_report_text s day days) (g, r) (λ r'. eq_refl (s.week_key day))
