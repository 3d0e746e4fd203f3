-- ===== src/Auth/Verify.antt =====
-- `OtpAuthService.verify_otp`: a code is checked once, and repeated failures lock the IP out.
-- The warning that a mismatch sends to the alert sink afterwards is not part of the state.
pub mod Earned
use Prim.Native.String.{slice}
use text.Mathlib.Text.{◌==◌ as str_eq}
use haru_trade_manager.Common.{
  ℕ, ◌+◌, ◌≤◌, ◌≡◌, ◌≢◌, refl, String, Bool, true, false, not, Option, none, some, arith, leb, ltb,
  if◌then◌else◌, fstring, show, strip, [], ◌∷◌, max, lookup, insert, erase, Bool-cases,
  Option-cases, inl, inr, lookup-insert_self, lookup-erase,
}
use haru_trade_manager.Domain.{Datetime}
use haru_trade_manager.Auth.{
  OtpConfig, OtpAuth, OtpRecord, VerifyFailState, SessionRecord, seconds, seconds_left, is_locked,
  is_unlocking, until_of, audit, set_verify, no_failures, unlock_verify_if_expired,
}

pub data VerifyReply : Type 0 where
  -- `retry_after_seconds`, and `fail_count` where this call set the lock
  locked : ℕ → Option ℕ → VerifyReply
  -- the error and `fail_count`
  failed : String → ℕ → VerifyReply
  -- the session, its end and its length in seconds
  verified : String → Datetime → ℕ → VerifyReply

abbrev failures_of : Option VerifyFailState → VerifyFailState
failures_of none = no_failures
failures_of (some v) = v

module _ (config : OtpConfig) where
  -- `_register_verify_failure`
  unfoldable pub register_verify_failure :
      String → Datetime → String → OtpAuth → VerifyReply × OtpAuth
  unfolding set_verify audit
  register_verify_failure ip now base_error s =
      let v = failures_of (lookup ip s.verify_by_ip) in
      let count = v.fail_count + 1 in
      let until = now + seconds config.verify_lock_seconds in
      if leb config.verify_fail_limit count
      then (
        locked (max (seconds_left until now) 1) (some count),
        audit "otp_verify_locked" ip false (some (fstring ("fail_count=" ∷ show count ∷ [])))
            (set_verify ip (record { fail_count = count; locked_until = some until }) s),
      )
      else (
        failed base_error count,
        audit "otp_verify_failed" ip false
            (some (fstring (base_error ∷ ";fail_count=" ∷ show count ∷ [])))
            (set_verify ip (record v { fail_count = count }) s),
      )

  -- The branch of the right code: a session opens, and the code and the failures are forgotten.
  open_session : String → Datetime → String → OtpAuth → VerifyReply × OtpAuth
  unfolding audit
  open_session ip now session_id s =
      let expires_at = now + seconds config.session_ttl_seconds in
      (
        verified session_id expires_at config.session_ttl_seconds,
        audit "otp_verify_success" ip true (some (fstring ("session=" ∷ slice session_id 0 8 ∷ [])))
            (record s {
              session_by_id =
                  insert session_id
                    (record {
                      session_id = session_id;
                      ip = ip;
                      issued_at = now;
                      expires_at = expires_at;
                    })
                    s.session_by_id;
              otp_by_ip = erase ip s.otp_by_ip;
              verify_by_ip = insert ip no_failures s.verify_by_ip;
            }),
      )

  -- The checks of the code that the IP was issued.
  check_code :
      String → Datetime → String → String → Option OtpRecord → OtpAuth → VerifyReply × OtpAuth
  unfolding register_verify_failure open_session
  check_code ip now clean session_id none s = register_verify_failure ip now "otp_not_requested" s
  check_code ip now clean session_id (some otp) s =
      if ltb otp.expires_at now
      then register_verify_failure ip now "otp_expired"
          (record s { otp_by_ip = erase ip s.otp_by_ip })
      else (if not (str_eq otp.code clean)
          then register_verify_failure ip now "otp_mismatch" s
          else open_session ip now session_id s)

  -- The method once the lock of the IP has been looked at.
  check_unlocked :
      String → Datetime → String → String → VerifyFailState × OtpAuth → VerifyReply × OtpAuth
  unfolding check_code audit
  check_unlocked ip now clean session_id (v, s) =
      let left = seconds_left (until_of v.locked_until) now in
      if is_locked now v.locked_until
      then (
        locked (max left 1) none,
        audit "otp_verify_locked" ip false (some (fstring ("retry_after=" ∷ show left ∷ []))) s,
      )
      else check_code ip now clean session_id (lookup ip s.otp_by_ip) s

  unfoldable pub verify_otp : String → Datetime → String → String → OtpAuth → VerifyReply × OtpAuth
  unfolding check_unlocked unlock_verify_if_expired set_verify
  verify_otp ip now code session_id s =
      let v = failures_of (lookup ip s.verify_by_ip) in
      check_unlocked ip now (strip code) session_id
        (unlock_verify_if_expired ip now v (set_verify ip v s))
