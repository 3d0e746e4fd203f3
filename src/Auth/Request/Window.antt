-- ===== src/Auth/Request/Window.antt =====
-- Any run of requests, by any IPs, inside one window.
use text.Mathlib.Text.{◌==◌ as str_eq}
use text.Mathlib.TextEquality.{eq_iff}
use mathlib.Core.Path.{subst, sym}
use haru_trade_manager.Common.{
  ℕ, ◌+◌, ◌≤◌, ◌<◌, ◌≡◌, refl, String, true, false, ◌&&◌, Option, none, some, List, [], ◌∷◌, arith,
  All, ltb, lookup, lookup-insert_ne, Bool-cases, inl, inr, ap, ◌∙◌,
}
use haru_trade_manager.Domain.{Datetime}
use haru_trade_manager.Auth.{
  OtpConfig, OtpAuth, RequestRateState, VerifyFailState, is_unlocking, seconds, is_locked, set_rate,
  audit, unlock_verify_if_expired,
}
use haru_trade_manager.Auth.Request.{
  RequestReply, request_otp, count_request, check_verify_lock, deny_or_count, roll_window, rate_of,
  request_at, unlock_rate,
}
use haru_trade_manager.Auth.Request.Limit.{
  one_if, is_issued, IsCounted, request_otp-IsCounted, unlock_verify-rates,
}

module _ (config : OtpConfig) (isoformat : Datetime → String) (ip other : String) (now : Datetime)
    (code : String) (differs : str_eq other ip ≡ false) where
  abbrev rate_in : OtpAuth → Option RequestRateState
  rate_in s = lookup ip s.rate_by_ip

  count_request-others :
      (r : RequestRateState) (s : OtpAuth)
      → rate_in (count_request config isoformat other now code r s).1 ≡ rate_in s
  unfolding count_request
  count_request-others r s =
      elim (Bool-cases (ltb config.request_limit_per_window (r.request_count + 1))) [
        | inl over ↦ rw over (lookup-insert_ne other ip _ s.rate_by_ip differs)
        | inr within ↦ rw within (lookup-insert_ne other ip _ s.rate_by_ip differs)
      ]

  deny_or_count-others :
      (r : RequestRateState) (v : VerifyFailState) (s : OtpAuth)
      → rate_in (deny_or_count config isoformat other now code r (v, s)).1 ≡ rate_in s
  unfolding deny_or_count
  deny_or_count-others r v s = elim (Bool-cases (is_locked now v.locked_until)) [
    | inl locked ↦ rw locked
    | inr unlocked ↦ rw unlocked (count_request-others (roll_window config now r) s)
  ]

  check_verify_lock-others :
      (r : RequestRateState) (s : OtpAuth) (v : Option VerifyFailState)
      → rate_in (check_verify_lock config isoformat other now code r s v).1 ≡ rate_in s
  unfolding check_verify_lock
  check_verify_lock-others r s none = count_request-others (roll_window config now r) s
  check_verify_lock-others r s (some v) =
      let (v', s') = unlock_verify_if_expired other now v s in
      deny_or_count-others r v' s' ∙ ap (lookup ip) (unlock_verify-rates other now v s)

  request_at-others :
      (r : RequestRateState) (s : OtpAuth)
      → rate_in (request_at config isoformat other now code (r, s)).1 ≡ rate_in s
  unfolding request_at set_rate
  request_at-others r s =
      let elsewhere = lookup-insert_ne other ip r s.rate_by_ip differs in
      elim (Bool-cases (is_locked now r.locked_until)) [
        | inl locked ↦ rw locked elsewhere
        | inr unlocked ↦ rw unlocked (check_verify_lock-others r _ _ ∙ elsewhere)
      ]

  unlock_rate-rates :
      (r : RequestRateState) (s : OtpAuth) → (unlock_rate other now r s).1.rate_by_ip ≡ s.rate_by_ip
  unlock_rate-rates r s = elim (Bool-cases (is_unlocking now r.locked_until)) [
    | inl over ↦ rw over (unfold audit in refl)
    | inr on ↦ rw on
  ]

  -- A request by one IP leaves the count of another alone.
  request_otp-others :
      (s : OtpAuth) → rate_in (request_otp config isoformat other now code s).1 ≡ rate_in s
  unfolding request_otp
  request_otp-others s =
      let r = rate_of now (lookup other s.rate_by_ip) in
      request_at-others (unlock_rate other now r s).0 (unlock_rate other now r s).1
      ∙ ap (lookup ip) (unlock_rate-rates r s)

pub record OtpRequest : Type 0 where
  pub ip : String
  pub at : Datetime
  pub code : String

module _ (config : OtpConfig) (isoformat : Datetime → String) where
  -- How many codes the IP is issued in a run of requests.
  unfoldable pub count_issued : String → List OtpRequest → OtpAuth → ℕ
  count_issued ip [] s = 0
  count_issued ip (q ∷ qs) s =
      let (reply, s') = request_otp config isoformat q.ip q.at q.code s in
      one_if (str_eq q.ip ip && is_issued reply) + count_issued ip qs s'

  abbrev pub IsInside : Datetime → OtpRequest → Type 0
  IsInside start q = (start ≤ q.at) × (q.at < start + seconds config.request_window_seconds)

  counted_le :
      (start : Datetime) (n : ℕ) (o : Option RequestRateState)
      → IsCounted config isoformat start n o
      → n + 0 ≤ config.request_limit_per_window
  counted_le start n none h = omega arith
  counted_le start n (some r) h = omega arith

  count_issued-le :
      (ip : String) (start : Datetime) (n : ℕ) (qs : List OtpRequest) (s : OtpAuth)
      → config.request_window_seconds ≤ config.lock_seconds
      → All (IsInside start) qs
      → IsCounted config isoformat start n (lookup ip s.rate_by_ip)
      → n + count_issued ip qs s ≤ config.request_limit_per_window
  unfolding count_issued
  count_issued-le ip start n [] s long inside h = counted_le start n (lookup ip s.rate_by_ip) h
  count_issued-le ip start n (q ∷ qs) s long inside h = elim (Bool-cases (str_eq q.ip ip)) [
    | inl same ↦ rw same (
        omega (
          arith,
          count_issued-le ip start (n + one_if (is_issued reply.0)) qs reply.1 long inside.1
              (after_own same),
        ))
    | inr differs ↦
        rw differs
          (omega (arith, count_issued-le ip start n qs reply.1 long inside.1 (after_other differs)))
  ]
    where
      reply : RequestReply × OtpAuth
      reply = request_otp config isoformat q.ip q.at q.code s

      after_own :
          str_eq q.ip ip ≡ true
          → IsCounted config isoformat start
              (n + one_if (is_issued reply.0))
              (lookup ip reply.1.rate_by_ip)
      after_own same =
          let eq = (eq_iff q.ip ip).0 same in
          subst
            (λ k.
              IsCounted config isoformat start (n + one_if (is_issued reply.0))
                (lookup k reply.1.rate_by_ip))
            eq
            (request_otp-IsCounted config isoformat q.ip start q.at q.code inside.0.0 inside.0.1
              long n s
              (subst (λ k. IsCounted config isoformat start n (lookup k s.rate_by_ip)) (sym eq) h))

      after_other :
          str_eq q.ip ip ≡ false → IsCounted config isoformat start n (lookup ip reply.1.rate_by_ip)
      after_other differs =
          subst (IsCounted config isoformat start n)
            (sym (request_otp-others config isoformat ip q.ip q.at q.code differs s)) h

-- However requests by all IPs interleave inside one window, an IP that was not known before is
-- issued no more codes than the limit, provided that a lock lasts at least as long as a window.
pub issued_within_window :
    (config : OtpConfig) (isoformat : Datetime → String) (ip : String) (start : Datetime)
    (requests : List OtpRequest) (s : OtpAuth)
    → config.request_window_seconds ≤ config.lock_seconds
    → All (IsInside config isoformat start) requests
    → lookup ip s.rate_by_ip ≡ none
    → count_issued config isoformat ip requests s ≤ config.request_limit_per_window
issued_within_window config isoformat ip start requests s long inside unknown =
    omega
      (arith, count_issued-le config isoformat ip start 0 requests s long inside (rw unknown refl))
