-- ===== src/Auth/Request/Limit.antt =====
-- How many codes one IP is issued.
use haru_trade_manager.Common.{
  ℕ, ◌+◌, ◌≤◌, ◌<◌, ◌≡◌, String, Bool, true, false, Option, none, some, arith, ltb, lookup,
  lookup-insert_self, Bool-cases, ap, ◌∙◌, inl, inr,
}
use haru_trade_manager.Domain.{Datetime}
use haru_trade_manager.Auth.{
  OtpConfig, OtpAuth, RequestRateState, VerifyFailState, seconds, is_locked, is_unlocking, set_rate,
  unlock_verify_if_expired,
}
use haru_trade_manager.Auth.Request.{
  RequestReply, refused, issued, request_otp, count_request, check_verify_lock, deny_or_count,
  rate_of, request_at, unlock_rate, roll_window,
}

abbrev pub is_issued : RequestReply → Bool
is_issued (issued _ _ _) = true
is_issued (refused _ _) = false

abbrev pub one_if : Bool → ℕ
one_if true = 1
one_if false = 0

abbrev pub IsLockedPast : Datetime → Option Datetime → Type 0
IsLockedPast end none = Unit
IsLockedPast end (some until) = end ≤ until

pub unlock_verify-rates :
    (ip : String) (now : Datetime) (v : VerifyFailState) (s : OtpAuth)
    → (unlock_verify_if_expired ip now v s).1.rate_by_ip ≡ s.rate_by_ip
unfolding unlock_verify_if_expired
unlock_verify-rates ip now v s = elim (Bool-cases (is_unlocking now v.locked_until)) [
  | inl expired ↦ rw expired
  | inr other ↦ rw other
]

module _ (config : OtpConfig) (isoformat : Datetime → String) where
  -- The state of an IP that was issued n codes since `start`: it is locked to the end of the
  -- window at least, or its requests are counted in a window that began no earlier.
  abbrev pub IsCountedAs : Datetime → ℕ → RequestRateState → Type 0
  IsCountedAs start n r =
      (n ≤ config.request_limit_per_window)
      × (start ≤ r.window_start)
      × (n ≤ r.request_count)
      × IsLockedPast (start + seconds config.request_window_seconds) r.locked_until

  abbrev pub IsCounted : Datetime → ℕ → Option RequestRateState → Type 0
  IsCounted start n none = n ≡ 0
  IsCounted start n (some r) = IsCountedAs start n r

  module _ (ip : String) (start now : Datetime) (code : String) (begun : start ≤ now)
      (inside : now < start + seconds config.request_window_seconds)
      (long : config.request_window_seconds ≤ config.lock_seconds) where
    count_request-IsCounted :
        (n : ℕ) (r : RequestRateState) (s : OtpAuth)
        → IsCountedAs start n r
        → let (reply, s') = count_request config isoformat ip now code r s in
          IsCounted start (n + one_if (is_issued reply)) (lookup ip s'.rate_by_ip)
    unfolding count_request
    count_request-IsCounted n r s h =
        elim (Bool-cases (ltb config.request_limit_per_window (r.request_count + 1))) [
          | inl over ↦ rw over (rw (lookup-insert_self ip _ s.rate_by_ip) (ground arith))
          | inr within ↦ rw within (rw (lookup-insert_self ip _ s.rate_by_ip) (ground arith))
        ]

    roll_window-keeps :
        (n : ℕ) (r : RequestRateState) → IsCountedAs start n r → roll_window config now r ≡ r
    roll_window-keeps n r h = ground arith

    deny_or_count-IsCounted :
        (n : ℕ) (r : RequestRateState) (v : VerifyFailState) (s : OtpAuth)
        → IsCountedAs start n r
        → lookup ip s.rate_by_ip ≡ some r
        → let (reply, s') = deny_or_count config isoformat ip now code r (v, s) in
          IsCounted start (n + one_if (is_issued reply)) (lookup ip s'.rate_by_ip)
    unfolding deny_or_count
    deny_or_count-IsCounted n r v s h e = elim (Bool-cases (is_locked now v.locked_until)) [
      | inl locked ↦ rw locked (rw e (ground arith))
      | inr unlocked ↦ rw unlocked (rw (roll_window-keeps n r h) (count_request-IsCounted n r s h))
    ]

    check_verify_lock-IsCounted :
        (n : ℕ) (r : RequestRateState) (s : OtpAuth) (v : Option VerifyFailState)
        → IsCountedAs start n r
        → lookup ip s.rate_by_ip ≡ some r
        → let (reply, s') = check_verify_lock config isoformat ip now code r s v in
          IsCounted start (n + one_if (is_issued reply)) (lookup ip s'.rate_by_ip)
    unfolding check_verify_lock
    check_verify_lock-IsCounted n r s none h e =
        rw (roll_window-keeps n r h) (count_request-IsCounted n r s h)
    check_verify_lock-IsCounted n r s (some v) h e =
        let (v', s') = unlock_verify_if_expired ip now v s in
        deny_or_count-IsCounted n r v' s' h (ap (lookup ip) (unlock_verify-rates ip now v s) ∙ e)

    request_at-IsCounted :
        (n : ℕ) (r : RequestRateState) (s : OtpAuth)
        → IsCountedAs start n r
        → let (reply, s') = request_at config isoformat ip now code (unlock_rate ip now r s) in
          IsCounted start (n + one_if (is_issued reply)) (lookup ip s'.rate_by_ip)
    unfolding request_at set_rate
    request_at-IsCounted n r s h =
        let still : is_unlocking now r.locked_until ≡ false = ground arith in
        rw still (elim (Bool-cases (is_locked now r.locked_until)) [
          | inl locked ↦ rw locked (rw (lookup-insert_self ip r s.rate_by_ip) (ground arith))
          | inr unlocked ↦
              rw unlocked
                (check_verify_lock-IsCounted n r _ _ h (lookup-insert_self ip r s.rate_by_ip))
        ])

    rate_of-IsCountedAs :
        (n : ℕ) (o : Option RequestRateState)
        → IsCounted start n o
        → IsCountedAs start n (rate_of now o)
    rate_of-IsCountedAs n none h = ground arith
    rate_of-IsCountedAs n (some r) h = h

    -- A request inside the window, by the IP whose codes are counted.
    pub request_otp-IsCounted :
        (n : ℕ) (s : OtpAuth)
        → IsCounted start n (lookup ip s.rate_by_ip)
        → let (reply, s') = request_otp config isoformat ip now code s in
          IsCounted start (n + one_if (is_issued reply)) (lookup ip s'.rate_by_ip)
    unfolding request_otp
    request_otp-IsCounted n s h =
        request_at-IsCounted n (rate_of now (lookup ip s.rate_by_ip)) s (rate_of-IsCountedAs n _ h)
