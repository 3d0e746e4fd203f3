-- ===== src/Risk/Ranges.antt =====
-- The true ranges that `compute_atr` averages.
use haru_trade_manager.Common.{
  ℕ, zero, suc, ◌≡◌, refl, ◌⊎◌, Option, none, some, List, [], ◌∷◌, arith, length, get_elem?, ok,
  raised, value_error, Double, min, div, of_nat, sum_f,
}
use haru_trade_manager.Risk.{true_range, true_ranges, compute_atr}

module _ {F : Type 0} ⦃d : Double F⦄ where
  pub length-true_ranges :
      (prev : Option F) (highs lows closes : List F)
      → length (true_ranges prev highs lows closes)
        ≡ min (min (length highs) (length lows)) (length closes)
  unfolding true_ranges
  length-true_ranges prev [] lows closes = omega arith
  length-true_ranges prev (h ∷ hs) [] closes = omega arith
  length-true_ranges prev (h ∷ hs) (l ∷ ls) [] = omega arith
  length-true_ranges prev (h ∷ hs) (l ∷ ls) (c ∷ cs) =
      omega (arith, length-true_ranges (some c) hs ls cs)

  true_ranges-zero :
      (prev : F) (highs lows closes : List F) {h l c : F}
      → get_elem? highs 0 ≡ some h
      → get_elem? lows 0 ≡ some l
      → get_elem? closes 0 ≡ some c
      → get_elem? (true_ranges (some prev) highs lows closes) 0 ≡ some (true_range h l prev)
  unfolding true_ranges
  true_ranges-zero prev [] lows closes e f g = cc
  true_ranges-zero prev (h ∷ hs) [] closes e f g = cc
  true_ranges-zero prev (h ∷ hs) (l ∷ ls) [] e f g = cc
  true_ranges-zero prev (h ∷ hs) (l ∷ ls) (c ∷ cs) e f g = cc

  true_ranges-suc :
      (prev : Option F) (highs lows closes : List F) (i : ℕ) (h l c p : F)
      → get_elem? highs (suc i) ≡ some h
      → get_elem? lows (suc i) ≡ some l
      → get_elem? closes (suc i) ≡ some c
      → get_elem? closes i ≡ some p
      → get_elem? (true_ranges prev highs lows closes) (suc i) ≡ some (true_range h l p)
  unfolding true_ranges
  true_ranges-suc prev [] lows closes i h' l' c' p' e f g pe = cc
  true_ranges-suc prev (h ∷ hs) [] closes i h' l' c' p' e f g pe = cc
  true_ranges-suc prev (h ∷ hs) (l ∷ ls) [] i h' l' c' p' e f g pe = cc
  true_ranges-suc prev (h ∷ hs) (l ∷ ls) (c ∷ cs) zero h' l' c' p' e f g pe =
      let same : p' ≡ c = cc in rw same (true_ranges-zero c hs ls cs e f g)
  true_ranges-suc prev (h ∷ hs) (l ∷ ls) (c ∷ cs) (suc i) h' l' c' p' e f g pe =
      true_ranges-suc (some c) hs ls cs i h' l' c' p' e f g pe

  -- Of series that are not empty, `compute_atr` is the mean of one true range for each bar that all
  -- three series have: the first is taken against its own close, and that of any later bar i + 1
  -- against the close of bar i.
  pub compute_atr_lem :
      (h₀ l₀ c₀ : F) (highs lows closes : List F) (i : ℕ) (h l c p : F)
      → get_elem? highs i ≡ some h
      → get_elem? lows i ≡ some l
      → get_elem? closes i ≡ some c
      → get_elem? (c₀ ∷ closes) i ≡ some p
      → (trs : List F) × (compute_atr (h₀ ∷ highs) (l₀ ∷ lows) (c₀ ∷ closes)
          ≡ ok (div (sum_f trs) (of_nat (length trs))))
        × (length trs ≡ suc (min (min (length highs) (length lows)) (length closes)))
        × (get_elem? trs 0 ≡ some (true_range h₀ l₀ c₀))
        × (get_elem? trs (suc i) ≡ some (true_range h l p))
  unfolding compute_atr
  compute_atr_lem h₀ l₀ c₀ highs lows closes i h l c p eh el ec ep = (
    true_ranges none (h₀ ∷ highs) (l₀ ∷ lows) (c₀ ∷ closes),
    refl,
    omega (arith, length-true_ranges (some c₀) highs lows closes),
    refl,
    true_ranges-suc none (h₀ ∷ highs) (l₀ ∷ lows) (c₀ ∷ closes) i h l c p eh el ec ep,
  )

  -- If a series is empty, `compute_atr` raises.
  pub compute_atr_empty :
      (highs lows closes : List F)
      → (highs ≡ []) ⊎ (lows ≡ []) ⊎ (closes ≡ [])
      → compute_atr highs lows closes
        ≡ raised (record { kind = value_error; text = "high/low/close series are required" })
  unfolding compute_atr
  compute_atr_empty [] lows closes e = refl
  compute_atr_empty (h ∷ hs) [] closes e = refl
  compute_atr_empty (h ∷ hs) (l ∷ ls) [] e = refl
  compute_atr_empty (h ∷ hs) (l ∷ ls) (c ∷ cs) e = ground arith
