-- ===== src/Strategies/Emitted.antt =====
-- What the signals of a scan are like.
use text.Mathlib.Text.{◌==◌ as str_eq}
use text.Mathlib.TextEquality.{eq_iff}
use haru_trade_manager.Common.{
  and_then, ◌≤◌, ◌≡◌, refl, inl, inr, String, true, not, ◌||◌, Option, none, some, List, [], ◌∷◌,
  zero, suc, Has, All, All-weaken, Outcome, ok, raised, length, ltb, arith, Double, Bool-cases,
}
use haru_trade_manager.Domain.{Signal}
use haru_trade_manager.Strategies.{Strategy, is_active_time, last_two, and_then}
use haru_trade_manager.Strategies.Registry.{
  Scan, signal_of, last_close, generate, for_timeframe, add_some, generate_all, scan_all,
}

module _ {F : Type 0} ⦃d : Double F⦄ (timeframe : String) (scan : Scan F) where
  -- The signal is that of the strategy, for this time frame, inside its hours and with enough
  -- candles, at the last close.
  abbrev pub IsSignalOf : Strategy F → Signal F → Type 0
  IsSignalOf s signal =
      (signal.strategy_id ≡ s.strategy_id)
      × (signal.ticker ≡ scan.ticker)
      × (signal.timeframe ≡ timeframe)
      × (signal.price ≡ last_close (last_two scan.candles))
      × (is_active_time s.active_hours scan.clock ≡ true)
      × (s.min_candles ≤ length scan.candles)
      × (s.side_of scan.candles ≡ ok (some signal.side))

  abbrev pub IsFrom : List (Strategy F) → Signal F → Type 0
  IsFrom strategies signal = (s : Strategy F) × Has strategies s × IsSignalOf s signal

  -- What holds of the signals; where a rule raises there are none.
  abbrev pub Emits : List (Strategy F) → Outcome (List (Signal F)) → Type 0
  Emits strategies (ok signals) = All (IsFrom strategies) signals
  Emits strategies (raised e) = Unit

  abbrev IsGenerated : Strategy F → Outcome (Option (Signal F)) → Type 0
  IsGenerated s (ok (some signal)) = IsSignalOf s signal
  IsGenerated s (ok none) = Unit
  IsGenerated s (raised e) = Unit

  generate-IsGenerated :
      (s : Strategy F) → s.timeframe ≡ timeframe → IsGenerated s (generate s scan)
  unfolding generate
  generate-IsGenerated s same =
      elim (Bool-cases (
        not (is_active_time s.active_hours scan.clock)
        || ltb (length scan.candles) s.min_candles)) [
          | inl shut ↦ rw shut tt
          | inr open_now ↦
              rw open_now (go (s.side_of scan.candles) refl (ground arith) (ground arith))
        ]
    where
      go :
          (r : Outcome (Option String))
          → s.side_of scan.candles ≡ r
          → is_active_time s.active_hours scan.clock ≡ true
          → s.min_candles ≤ length scan.candles
          → IsGenerated s (and_then r (λ side. ok (signal_of s scan side)))
      go (ok none) e active enough = tt
      go (ok (some side)) e active enough = (refl, refl, same, refl, active, enough, e)
      go (raised f) e active enough = tt

  IsFrom-cons :
      (s : Strategy F) (strategies : List (Strategy F)) (signals : List (Signal F))
      → All (IsFrom strategies) signals
      → All (IsFrom (s ∷ strategies)) signals
  IsFrom-cons s strategies signals =
      All-weaken (IsFrom strategies) (IsFrom (s ∷ strategies)) signals
        λ signal (t, (i, e), h). (t, (suc i, e), h)

  Emits-cons :
      (s : Strategy F) (strategies : List (Strategy F)) (r : Outcome (List (Signal F)))
      → Emits strategies r
      → Emits (s ∷ strategies) r
  Emits-cons s strategies (ok signals) h = IsFrom-cons s strategies signals h
  Emits-cons s strategies (raised e) h = tt

  both-Emits :
      (s : Strategy F) (strategies : List (Strategy F)) (first : Outcome (Option (Signal F)))
      (others : Outcome (List (Signal F)))
      → IsGenerated s first
      → Emits strategies others
      → Emits
          (s ∷ strategies)
          (and_then first λ signal. and_then others λ signals. ok (add_some signal signals))
  both-Emits s strategies (raised e) others h k = tt
  both-Emits s strategies (ok none) (raised e) h k = tt
  both-Emits s strategies (ok (some signal)) (raised e) h k = tt
  both-Emits s strategies (ok none) (ok signals) h k = IsFrom-cons s strategies signals k
  both-Emits s strategies (ok (some signal)) (ok signals) h k =
      ((s, (zero, refl), h), IsFrom-cons s strategies signals k)

  -- Each signal of a scan comes from a strategy of the registry that runs on this time frame, inside
  -- its active hours and with as many candles as it needs; the side is what its rule says, and the
  -- price is the last close of the ticker that was scanned.
  pub scan_all-Emits :
      (strategies : List (Strategy F)) → Emits strategies (scan_all strategies timeframe scan)
  unfolding scan_all for_timeframe generate_all
  scan_all-Emits [] = tt
  scan_all-Emits (s ∷ strategies) = elim (Bool-cases (str_eq s.timeframe timeframe)) [
    | inl same ↦ rw same (
        both-Emits s strategies (generate s scan) (scan_all strategies timeframe scan)
          (generate-IsGenerated s ((eq_iff s.timeframe timeframe).0 same))
          (scan_all-Emits strategies))
    | inr apart ↦
        rw apart
          (Emits-cons s strategies (scan_all strategies timeframe scan) (scan_all-Emits strategies))
  ]
