-- ===== src/Auth.antt =====
-- app/services/auth.py: one-time codes by IP, with rate limits and locks, and the sessions that
-- they open. The datetimes are those of the calls, in microseconds; codes and session ids are what
-- `secrets` returns.
pub mod Request
pub mod Verify
pub mod Session
use Prim.Native.String.{slice}
use haru_trade_manager.Common.{
  ℕ, ◌+◌, ◌-◌, ◌*◌, ◌/◌, String, Bool, true, false, Option, none, some, List, [], ◌∷◌, ◌++◌, Dict,
  leb, ltb, if◌then◌else◌, lookup, insert, max,
}
use haru_trade_manager.Domain.{Datetime}

pub record OtpRecord : Type 0 where
  pub code : String
  pub expires_at : Datetime

pub record RequestRateState : Type 0 where
  pub window_start : Datetime
  pub request_count : ℕ
  pub locked_until : Option Datetime

pub record VerifyFailState : Type 0 where
  pub fail_count : ℕ
  pub locked_until : Option Datetime

pub record SessionRecord : Type 0 where
  pub session_id : String
  pub ip : String
  pub issued_at : Datetime
  pub expires_at : Datetime

-- The constructor's numbers, in seconds where they are times.
pub record OtpConfig : Type 0 where
  pub otp_ttl_seconds : ℕ
  pub request_window_seconds : ℕ
  pub request_limit_per_window : ℕ
  pub lock_seconds : ℕ
  pub verify_fail_limit : ℕ
  pub verify_lock_seconds : ℕ
  pub session_ttl_seconds : ℕ

abbrev pub default_config : OtpConfig
default_config = record {
  otp_ttl_seconds = 180;
  request_window_seconds = 60;
  request_limit_per_window = 3;
  lock_seconds = 600;
  verify_fail_limit = 5;
  verify_lock_seconds = 600;
  session_ttl_seconds = 86400;
}

-- What `_audit` hands to the sink; a sink that raises changes nothing.
pub record AuditEvent : Type 0 where
  pub event_type : String
  pub ip : String
  pub is_ok : Bool
  pub detail : Option String

pub record OtpAuth : Type 0 where
  pub otp_by_ip : Dict OtpRecord
  pub rate_by_ip : Dict RequestRateState
  pub verify_by_ip : Dict VerifyFailState
  pub session_by_id : Dict SessionRecord
  pub audit_log : List AuditEvent

abbrev pub fresh : OtpAuth
fresh = record {
  otp_by_ip = [];
  rate_by_ip = [];
  verify_by_ip = [];
  session_by_id = [];
  audit_log = [];
}

-- `timedelta(seconds=n)`
abbrev pub seconds : ℕ → ℕ
seconds n = n * 1000000

-- `int((until - now).total_seconds())`, where `until` is not before `now`
abbrev pub seconds_left : Datetime → Datetime → ℕ
seconds_left until now = (until - now) / 1000000

-- `locked_until is not None and now < locked_until`
abbrev pub is_locked : Datetime → Option Datetime → Bool
is_locked now none = false
is_locked now (some until) = ltb now until

-- `locked_until is not None and now >= locked_until`
abbrev pub is_unlocking : Datetime → Option Datetime → Bool
is_unlocking now none = false
is_unlocking now (some until) = leb until now

abbrev pub until_of : Option Datetime → Datetime
until_of none = 0
until_of (some until) = until

unfoldable pub audit : String → String → Bool → Option String → OtpAuth → OtpAuth
audit event_type ip is_ok detail s = record s {
  audit_log =
      s.audit_log
      ++ record { event_type = event_type; ip = ip; is_ok = is_ok; detail = detail } ∷ [];
}

-- The states are objects that the code changes in place: each change is a write under their key.
unfoldable pub set_rate : String → RequestRateState → OtpAuth → OtpAuth
set_rate ip r s = record s { rate_by_ip = insert ip r s.rate_by_ip }

unfoldable pub set_verify : String → VerifyFailState → OtpAuth → OtpAuth
set_verify ip v s = record s { verify_by_ip = insert ip v s.verify_by_ip }

abbrev pub no_failures : VerifyFailState
no_failures = record { fail_count = 0; locked_until = none }

-- `_unlock_verify_if_expired`
unfoldable pub unlock_verify_if_expired :
    String → Datetime → VerifyFailState → OtpAuth → VerifyFailState × OtpAuth
unfolding set_verify audit
unlock_verify_if_expired ip now v s =
    if is_unlocking now v.locked_until
    then (
      no_failures,
      audit "otp_verify_unlocked" ip true (some "lock_expired") (set_verify ip no_failures s),
    )
    else (v, s)
