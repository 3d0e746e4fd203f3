-- ===== src/Auth/Request.antt =====
-- `OtpAuthService.request_otp`: a code for an IP, unless it asks too often or is locked out.
pub mod Limit
pub mod Window
use haru_trade_manager.Common.{
  ℕ, ◌+◌, ◌≡◌, String, Bool, true, false, Option, none, some, leb, ltb, if◌then◌else◌, fstring,
  show, [], ◌∷◌, max, lookup, insert, Dict,
}
use haru_trade_manager.Domain.{Datetime}
use haru_trade_manager.Auth.{
  OtpConfig, OtpAuth, OtpRecord, RequestRateState, VerifyFailState, seconds, seconds_left,
  is_locked, is_unlocking, until_of, audit, set_rate, unlock_verify_if_expired,
}

pub data RequestReply : Type 0 where
  -- the error and `retry_after_seconds`
  refused : String → ℕ → RequestReply
  -- `expires_in_seconds`, `requested_at`, and the code that is sent to the alert sink
  issued : ℕ → Datetime → String → RequestReply

abbrev retry_detail : ℕ → Option String
retry_detail left = some (fstring ("retry_after=" ∷ show left ∷ []))

-- `state = self._rate_by_ip.get(ip)`, or a new one
abbrev pub rate_of : Datetime → Option RequestRateState → RequestRateState
rate_of now none = record { window_start = now; request_count = 0; locked_until = none }
rate_of now (some r) = r

-- A lock that has run out is taken off, and the count begins anew.
abbrev unlock_rate : String → Datetime → RequestRateState → OtpAuth → RequestRateState × OtpAuth
unlock_rate ip now r s =
    if is_unlocking now r.locked_until
    then (
      record { window_start = now; request_count = 0; locked_until = none },
      audit "otp_request_unlocked" ip true (some "lock_expired") s,
    )
    else (r, s)

-- `if now - state.window_start >= timedelta(seconds=…)`
abbrev pub roll_window : OtpConfig → Datetime → RequestRateState → RequestRateState
roll_window config now r =
    if leb (r.window_start + seconds config.request_window_seconds) now
    then record { window_start = now; request_count = 0; locked_until = none }
    else r

module _ (config : OtpConfig) (isoformat : Datetime → String) where
  -- From `state.request_count += 1` on.
  count_request : String → Datetime → String → RequestRateState → OtpAuth → RequestReply × OtpAuth
  unfolding audit set_rate
  count_request ip now code r s =
      let counted = record r { request_count = r.request_count + 1 } in
      if ltb config.request_limit_per_window counted.request_count
      then (let left = seconds_left (now + seconds config.lock_seconds) now in
          (
            refused "otp_request_rate_limited" (max left 1),
            audit "otp_request_rate_limited" ip false (retry_detail left) (
                set_rate ip
                  (record counted { locked_until = some (now + seconds config.lock_seconds) }) s),
          ))
      else (let expires_at = now + seconds config.otp_ttl_seconds in
          let s' = set_rate ip counted s in
          (
            issued config.otp_ttl_seconds now code,
            audit "otp_request_issued" ip true
                (some (fstring ("expires_at=" ∷ isoformat expires_at ∷ [])))
                (record s' {
                  otp_by_ip =
                      insert ip (record { code = code; expires_at = expires_at }) s'.otp_by_ip;
                }),
          ))

  -- A request is refused while verification is locked, and counted otherwise.
  deny_or_count :
      String
      → Datetime
      → String
      → RequestRateState
      → VerifyFailState × OtpAuth
      → RequestReply × OtpAuth
  unfolding count_request audit
  deny_or_count ip now code r (v, s) =
      let left = seconds_left (until_of v.locked_until) now in
      if is_locked now v.locked_until
      then (
        refused "otp_verify_locked" (max left 1),
        audit "otp_request_denied_verify_locked" ip false (retry_detail left) s,
      )
      else count_request ip now code (roll_window config now r) s

  -- The check of the verification lock, if the IP has tried to verify.
  check_verify_lock :
      String
      → Datetime
      → String
      → RequestRateState
      → OtpAuth
      → Option VerifyFailState
      → RequestReply × OtpAuth
  unfolding deny_or_count unlock_verify_if_expired
  check_verify_lock ip now code r s none = count_request ip now code (roll_window config now r) s
  check_verify_lock ip now code r s (some v) =
      deny_or_count ip now code r (unlock_verify_if_expired ip now v s)

  -- The method from the first lock on; `r` is the state of the IP.
  request_at : String → Datetime → String → RequestRateState × OtpAuth → RequestReply × OtpAuth
  unfolding check_verify_lock
  request_at ip now code (r, s) =
      let s' = set_rate ip r s in
      let left = seconds_left (until_of r.locked_until) now in
      if is_locked now r.locked_until
      then (
        refused "otp_request_locked" (max left 1),
        audit "otp_request_locked" ip false (retry_detail left) s',
      )
      else check_verify_lock ip now code r s' (lookup ip s'.verify_by_ip)

  unfoldable pub request_otp : String → Datetime → String → OtpAuth → RequestReply × OtpAuth
  unfolding request_at
  request_otp ip now code s =
      request_at ip now code (unlock_rate ip now (rate_of now (lookup ip s.rate_by_ip)) s)
