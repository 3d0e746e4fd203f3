-- ===== src/Tests/Auth.antt =====
-- Samples of app/services/auth.py, with the numbers of its constructor.
use haru_trade_manager.Common.{
  ◌≤◌, ◌≡◌, ◌↔◌, refl, String, none, some, List, [], ◌∷◌, arith, lookup, insert, strip, ltb,
  if◌then◌else◌,
}
use haru_trade_manager.Domain.{Datetime}
use haru_trade_manager.Auth.{
  OtpAuth, SessionRecord, VerifyFailState, default_config, fresh, seconds,
}
use haru_trade_manager.Auth.Request.Window.{OtpRequest, count_issued, issued_within_window}
use haru_trade_manager.Auth.Verify.{verified, verify_otp}
use haru_trade_manager.Auth.Verify.Earned.{IsEarned, verify_otp-IsEarned}
use haru_trade_manager.Auth.Session.{valid, validate_session, validate_session_lem}

abbrev no_text : Datetime → String
no_text t = ""

abbrev asks : List OtpRequest
asks =
    record { ip = "10.0.0.1"; at = seconds 100; code = "0001" }
    ∷ record { ip = "10.0.0.2"; at = seconds 101; code = "0002" }
    ∷ record { ip = "10.0.0.1"; at = seconds 102; code = "0003" }
    ∷ record { ip = "10.0.0.1"; at = seconds 103; code = "0004" }
    ∷ record { ip = "10.0.0.1"; at = seconds 104; code = "0005" }
    ∷ []

issued_within_window_example : count_issued default_config no_text "10.0.0.1" asks fresh ≤ 3
issued_within_window_example =
    issued_within_window default_config no_text "10.0.0.1" (seconds 100) asks fresh (omega arith)
      (omega arith) (unfold lookup in refl)

abbrev asked : OtpAuth
asked = record fresh {
  otp_by_ip = ("10.0.0.1", record { code = "0001"; expires_at = seconds 280 }) ∷ [];
}

abbrev opened : SessionRecord
opened = record {
  session_id = "abcdef0123";
  ip = "10.0.0.1";
  issued_at = seconds 120;
  expires_at = seconds 86520;
}

abbrev logged_in : OtpAuth
logged_in = record fresh { session_by_id = ("abcdef0123", opened) ∷ [] }

verify_otp-IsEarned_example :
    let (reply, s') =
      verify_otp default_config "10.0.0.1" (seconds 120) " 0001" "abcdef0123" asked in
    IsEarned "10.0.0.1" (seconds 120) (strip " 0001") asked.otp_by_ip s' reply
verify_otp-IsEarned_example =
    verify_otp-IsEarned default_config "10.0.0.1" (seconds 120) " 0001" "abcdef0123" asked

verify_opens :
    (verify_otp default_config "10.0.0.1" (seconds 120) " 0001" "abcdef0123" asked).0
    ≡ verified "abcdef0123" (seconds 86520) 86400
unfolding verify_otp strip lookup insert
verify_opens = refl

validate_session_lem_example :
    let (reply, s') = validate_session "abcdef0123" "10.0.0.1" (seconds 500) logged_in in
    ((reply ≡ valid "abcdef0123" (seconds 120) (seconds 86520))
      ↔ ((opened.ip ≡ "10.0.0.1") × (seconds 500 ≤ seconds 86520)))
    × (lookup "abcdef0123" s'.session_by_id
        ≡ (if ltb (seconds 86520) (seconds 500) then none else some opened))
validate_session_lem_example =
    validate_session_lem "abcdef0123" "10.0.0.1" (seconds 500) logged_in opened
      (unfold lookup in refl)

abbrev shut : VerifyFailState
shut = record { fail_count = 5; locked_until = some (seconds 400) }

abbrev locked_out : OtpAuth
locked_out = record asked { verify_by_ip = ("10.0.0.1", shut) ∷ [] }
