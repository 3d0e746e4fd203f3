-- ===== src/Schedule/Slots.antt =====
-- When bars are due, and that each is due under a slot of its own.
use text.Mathlib.Text.{◌==◌ as str_eq}
use haru_trade_manager.Common.{
  fstring, if◌then◌else◌, ℕ, ◌+◌, ◌*◌, ◌/◌, ◌%◌, ◌≤◌, ◌≡◌, refl, String, Bool, true, false, ◌==◌,
  [], ◌∷◌, All, All-append, arith, Bool-cases, inl, inr, ◌&&◌,
}
use haru_trade_manager.Schedule.{
  Clock, is_auction, is_outside, when, due_timeframes, at_minute, slot_key, pad2,
}

module _ (c : Clock) where
  -- The market is open: from 8:00 to 20:00, but not in an auction.
  abbrev pub IsTrading : Type 0
  IsTrading =
      (480 ≤ c.hour * 60 + c.minute) × (c.hour * 60 + c.minute ≤ 1200) × (is_auction c ≡ false)

  -- The slot names the minute itself, or the day of a daily bar.
  abbrev pub IsSlot : String → Type 0
  IsSlot timeframe =
      slot_key c timeframe ≡ (if str_eq timeframe "1d" then c.date else at_minute c c.minute)

  abbrev pub IsDue : String → Type 0
  IsDue timeframe = IsTrading × IsSlot timeframe

  when-All :
      (test : Bool) (timeframe : String)
      → (test ≡ true → IsDue timeframe)
      → All IsDue (when test timeframe)
  when-All true timeframe h = (h refl, tt)
  when-All false timeframe h = tt

  rounded : (n : ℕ) → n ≡ c.minute → at_minute c n ≡ at_minute c c.minute
  rounded n h = rw h refl

  sixty : c.minute ≡ 0 → fstring (c.date ∷ " " ∷ pad2 c.hour ∷ ":00" ∷ []) ≡ at_minute c c.minute
  unfolding pad2 fstring
  sixty h = rw h refl

  -- Each bar that is due is due while the market is open, and its slot names the very minute, or
  -- the day of a daily bar.
  pub due_timeframes-IsDue : All IsDue (due_timeframes c)
  unfolding due_timeframes is_outside slot_key
  due_timeframes-IsDue = elim (Bool-cases (is_auction c)) [
    | inl auction ↦ rw auction tt
    | inr no_auction ↦ rw no_auction (elim (Bool-cases (is_outside c)) [
      | inl outside ↦ rw outside tt
      | inr inside ↦
          let trading : IsTrading = (ground arith, ground arith, no_auction) in
          rw inside (
            All-append IsDue _ (when (c.hour == 15 && c.minute == 30) "1d")
              (All-append IsDue _ (when (c.minute == 0) "60m")
                (All-append IsDue _ (when (c.minute % 15 == 0) "15m")
                  (All-append IsDue (when (c.minute % 3 == 0) "3m") (when (c.minute % 5 == 0) "5m")
                    (when-All _ "3m" λ h. (trading, rounded (c.minute / 3 * 3) (ground arith)))
                    (when-All _ "5m" λ h. (trading, rounded (c.minute / 5 * 5) (ground arith))))
                  (when-All _ "15m" λ h. (trading, rounded (c.minute / 15 * 15) (ground arith))))
                (when-All _ "60m" λ h. (trading, sixty (ground arith))))
              (when-All _ "1d" λ h. (trading, refl)))
    ])
  ]
