-- ===== src/Auth/Session.antt =====
-- `validate_session` and `revoke_session`, and the life of a session.
use Prim.Native.String.{slice}
use text.Mathlib.Text.{◌==◌ as str_eq}
use text.Mathlib.TextEquality.{eq_iff}
use text.Mathlib.TextPositions.{eq_refl}
use haru_trade_manager.Common.{
  ◌≤◌, ◌≡◌, ◌↔◌, String, true, false, not, Option, none, some, arith, ltb, if◌then◌else◌, fstring,
  [], ◌∷◌, lookup, erase, lookup-erase,
}
use haru_trade_manager.Domain.{Datetime}
use haru_trade_manager.Auth.{OtpAuth, SessionRecord, audit}

pub data SessionReply : Type 0 where
  invalid : String → SessionReply
  -- the session, when it was issued and when it ends
  valid : String → Datetime → Datetime → SessionReply

-- The checks of the session that was found.
check_session : String → String → Datetime → Option SessionRecord → OtpAuth → SessionReply × OtpAuth
unfolding audit
check_session session_id ip now none s =
    (invalid "session_not_found", audit "session_validate_not_found" ip false none s)
check_session session_id ip now (some row) s =
    if ltb row.expires_at now
    then (
      invalid "session_expired",
      audit "session_validate_expired" ip false none
          (record s { session_by_id = erase session_id s.session_by_id }),
    )
    else (if not (str_eq row.ip ip)
        then (
          invalid "session_ip_mismatch",
          audit "session_validate_ip_mismatch" ip false (some (fstring ("expected=" ∷ row.ip ∷ [])))
              s,
        )
        else (
          valid row.session_id row.issued_at row.expires_at,
          audit "session_validate_ok" ip true none s,
        ))

unfoldable pub validate_session : String → String → Datetime → OtpAuth → SessionReply × OtpAuth
unfolding check_session
validate_session session_id ip now s =
    check_session session_id ip now (lookup session_id s.session_by_id) s

revoke_row : String → Option SessionRecord → OtpAuth → OtpAuth
unfolding audit
revoke_row session_id none s = s
revoke_row session_id (some row) s =
    audit "session_revoke" row.ip true (some (fstring ("session=" ∷ slice session_id 0 8 ∷ [])))
      (record s { session_by_id = erase session_id s.session_by_id })

unfoldable pub revoke_session : String → OtpAuth → OtpAuth
unfolding revoke_row
revoke_session session_id s = revoke_row session_id (lookup session_id s.session_by_id) s

-- A session that is found is valid exactly for its own IP and up to the end of its term; past its
-- end it is not found again, and otherwise it still stands as it was.
pub validate_session_lem :
    (session_id ip : String) (now : Datetime) (s : OtpAuth) (row : SessionRecord)
    → lookup session_id s.session_by_id ≡ some row
    → let (reply, s') = validate_session session_id ip now s in
      ((reply ≡ valid row.session_id row.issued_at row.expires_at)
        ↔ ((row.ip ≡ ip) × (now ≤ row.expires_at)))
      × (lookup session_id s'.session_by_id ≡ (if ltb row.expires_at now then none else some row))
unfolding validate_session
validate_session_lem session_id ip now s row e = ground (
  arith,
  eq_iff row.ip ip,
  lookup-erase session_id session_id s.session_by_id,
  eq_refl session_id,
)

-- A session that was revoked is not found, whoever asks.
pub revoke-validate :
    (session_id ip : String) (now : Datetime) (s : OtpAuth)
    → (validate_session session_id ip now (revoke_session session_id s)).0
      ≡ invalid "session_not_found"
unfolding validate_session revoke_session
revoke-validate session_id ip now s =
    ground (arith, lookup-erase session_id session_id s.session_by_id, eq_refl session_id)
