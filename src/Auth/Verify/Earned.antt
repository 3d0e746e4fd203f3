-- ===== src/Auth/Verify/Earned.antt =====
-- A session is opened only for the code that was issued, once.
use text.Mathlib.Text.{◌==◌ as str_eq}
use text.Mathlib.TextEquality.{eq_iff}
use text.Mathlib.TextPositions.{eq_refl}
use mathlib.Core.Path.{subst}
use haru_trade_manager.Common.{
  Dict, ◌+◌, ◌≤◌, ◌≡◌, refl, String, Option, none, some, arith, leb, ltb, strip, lookup, erase,
  Bool-cases, inl, inr, lookup-insert_self, lookup-erase,
}
use haru_trade_manager.Domain.{Datetime}
use haru_trade_manager.Auth.{
  OtpConfig, OtpAuth, OtpRecord, VerifyFailState, is_locked, is_unlocking, set_verify,
  unlock_verify_if_expired,
}
use haru_trade_manager.Auth.Verify.{
  VerifyReply, locked, failed, verified, failures_of, register_verify_failure, open_session,
  check_code, check_unlocked, verify_otp,
}

-- What must hold for a reply that opens a session, by the codes that were issued before.
abbrev pub IsEarned : String → Datetime → String → Dict OtpRecord → OtpAuth → VerifyReply → Type 0
IsEarned ip now clean codes s' (locked _ _) = Unit
IsEarned ip now clean codes s' (failed _ _) = Unit
IsEarned ip now clean codes s' (verified session_id expires_at _) =
    ((otp : OtpRecord) × (lookup ip codes ≡ some otp) × (otp.code ≡ clean) × (now ≤ otp.expires_at))
    × (lookup ip s'.otp_by_ip ≡ none)
    × (lookup session_id s'.session_by_id
        ≡ some
            (record { session_id = session_id; ip = ip; issued_at = now; expires_at = expires_at }))

module _ (config : OtpConfig) (ip : String) (now : Datetime) (clean session_id : String) where
  failure-IsEarned :
      (base_error : String) (s t : OtpAuth)
      → let (reply, s') = register_verify_failure config ip now base_error t in
        IsEarned ip now clean s.otp_by_ip s' reply
  unfolding register_verify_failure
  failure-IsEarned base_error s t =
      elim (Bool-cases
        (leb config.verify_fail_limit ((failures_of (lookup ip t.verify_by_ip)).fail_count + 1))) [
          | inl last ↦ rw last tt
          | inr more ↦ rw more tt
        ]

  open_session-IsEarned :
      (otp : OtpRecord) (s : OtpAuth)
      → lookup ip s.otp_by_ip ≡ some otp
      → otp.code ≡ clean
      → now ≤ otp.expires_at
      → let (reply, s') = open_session config ip now session_id s in
        IsEarned ip now clean s.otp_by_ip s' reply
  unfolding open_session
  open_session-IsEarned otp s e same fresh = (
    (otp, e, same, fresh),
    rw (lookup-erase ip ip s.otp_by_ip) (rw (eq_refl ip)),
    lookup-insert_self session_id _ s.session_by_id,
  )

  check_code-IsEarned :
      (o : Option OtpRecord) (s : OtpAuth)
      → lookup ip s.otp_by_ip ≡ o
      → let (reply, s') = check_code config ip now clean session_id o s in
        IsEarned ip now clean s.otp_by_ip s' reply
  unfolding check_code
  check_code-IsEarned none s e = failure-IsEarned "otp_not_requested" s s
  check_code-IsEarned (some otp) s e = elim (Bool-cases (ltb otp.expires_at now)) [
    | inl late ↦
        rw late (failure-IsEarned "otp_expired" s (record s { otp_by_ip = erase ip s.otp_by_ip }))
    | inr timely ↦ rw timely (elim (Bool-cases (str_eq otp.code clean)) [
      | inl same ↦
          rw same (open_session-IsEarned otp s e ((eq_iff otp.code clean).0 same) (ground arith))
      | inr wrong ↦ rw wrong (failure-IsEarned "otp_mismatch" s s)
    ])
  ]

  check_unlocked-IsEarned :
      (v : VerifyFailState) (s : OtpAuth)
      → let (reply, s') = check_unlocked config ip now clean session_id (v, s) in
        IsEarned ip now clean s.otp_by_ip s' reply
  unfolding check_unlocked
  check_unlocked-IsEarned v s = elim (Bool-cases (is_locked now v.locked_until)) [
    | inl shut ↦ rw shut tt
    | inr clear ↦ rw clear (check_code-IsEarned (lookup ip s.otp_by_ip) s refl)
  ]

-- The codes are those of the state before the lock is looked at.
unlock_verify-codes :
    (ip : String) (now : Datetime) (v : VerifyFailState) (s : OtpAuth)
    → (unlock_verify_if_expired ip now v s).1.otp_by_ip ≡ s.otp_by_ip
unfolding unlock_verify_if_expired
unlock_verify-codes ip now v s = elim (Bool-cases (is_unlocking now v.locked_until)) [
  | inl over ↦ rw over
  | inr on ↦ rw on
]

-- A verification that opens a session was given the code that this IP was issued, in time; the code
-- is gone afterwards, and the session stands under its id, for this IP.
pub verify_otp-IsEarned :
    (config : OtpConfig) (ip : String) (now : Datetime) (code session_id : String) (s : OtpAuth)
    → let (reply, s') = verify_otp config ip now code session_id s in
      IsEarned ip now (strip code) s.otp_by_ip s' reply
unfolding verify_otp
verify_otp-IsEarned config ip now code session_id s =
    let v = failures_of (lookup ip s.verify_by_ip) in
    let u = unlock_verify_if_expired ip now v (set_verify ip v s) in
    let r = check_unlocked config ip now (strip code) session_id u in
    subst (λ codes. IsEarned ip now (strip code) codes r.1 r.0)
      (unlock_verify-codes ip now v (set_verify ip v s))
      (check_unlocked-IsEarned config ip now (strip code) session_id u.0 u.1)
