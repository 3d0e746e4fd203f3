-- ===== src/Backtest/Lookahead.antt =====
-- A simulated trade that has been closed does not depend on the bars that come later.
use text.Mathlib.Text.{◌==◌ as str_eq}
use haru_trade_manager.Common.{
  ◌≡◌, ◌≢◌, refl, sym, ap, ◌⊎◌, inl, inr, ℕ, zero, suc, ◌-◌, ◌≤◌, ◌<◌, String, Bool, true, false,
  Option, none, some, List, [], ◌∷◌, ◌++◌, Outcome, ok, raised, and_then-agrees, raise_if,
  value_error, arith, leb, length, drop, take, get_elem?, length-append, Bool-cases, if_then_else-P,
  ◌∙◌, add, Double, le, ge, gt, nought, sub, max_f, min_f,
}
use haru_trade_manager.Domain.{Candle, Signal}
use haru_trade_manager.Backtest.{
  Multiples, Trade, Levels, last_of, window_of, compute_atr, opened, close_all, long_bar, short_bar,
  long_trail, short_trail, close_half, run_bars, close_rest, report, entry_price_n_plus_one_open,
  long_levels, short_levels, simulate_long_trade, simulate_short_trade, simulate_trade, or_bar,
  by_side, from_atr, from_entry,
}

module _ {A : Type 0} where
  drop-append : (n : ℕ) (xs ys : List A) → n ≤ length xs → drop n (xs ++ ys) ≡ drop n xs ++ ys
  drop-append zero xs ys h = refl
  drop-append (suc n) [] ys h = absurd (omega (arith, h))
  drop-append (suc n) (x ∷ xs) ys h = drop-append n xs ys (omega (arith, h))

  length-drop : (n : ℕ) (xs : List A) → length (drop n xs) ≡ length xs - n
  length-drop zero xs = omega arith
  length-drop (suc n) [] = omega arith
  length-drop (suc n) (x ∷ xs) = omega (arith, length-drop n xs)

  take-append : (n : ℕ) (xs ys : List A) → n ≤ length xs → take n (xs ++ ys) ≡ take n xs
  take-append zero xs ys h = refl
  take-append (suc n) [] ys h = absurd (omega (arith, h))
  take-append (suc n) (x ∷ xs) ys h = rw (take-append n xs ys (omega (arith, h))) refl

  get_elem?-append :
      (n : ℕ) (xs ys : List A) → n < length xs → get_elem? (xs ++ ys) n ≡ get_elem? xs n
  get_elem?-append n [] ys h = absurd (omega (arith, h))
  get_elem?-append zero (x ∷ xs) ys h = refl
  get_elem?-append (suc n) (x ∷ xs) ys h = get_elem?-append n xs ys (omega (arith, h))

module _ {F : Type 0} ⦃d : Double F⦄ where
  -- The window of the average true range ends at the bar of the signal.
  window_of-append :
      (candles more : List (Candle F)) (index period : ℕ)
      → index < length candles
      → window_of (candles ++ more) index period ≡ window_of candles index period
  window_of-append candles more index period h =
      let start = suc index - period in
      rw (drop-append start candles more (omega (arith, h))) (
        take-append (suc index - start) (drop start candles) more
          (omega (arith, h, length-drop start candles)))

  -- Where a bar does not stop the loop, no reason is given yet.
  abbrev IsQuietAt : String → Bool × Trade F → Type 0
  IsQuietAt reason r = (r.0 ≡ true) ⊎ (r.1.reason ≡ reason)

  abbrev IsQuiet : (Candle F → Trade F → Bool × Trade F) → Type 0
  IsQuiet bar = (c : Candle F) (t : Trade F) → IsQuietAt t.reason (bar c t)

  long_trail-IsQuietAt :
      (l : Levels F) (c : Candle F) (highest : F) (t : Trade F)
      → IsQuietAt t.reason (long_trail l c highest t)
  unfolding long_trail close_all
  long_trail-IsQuietAt l c highest t =
      if_then_else-P (IsQuietAt t.reason) (le c.low (max_f (sub highest l.trail) nought)) _ _
        (λ _. inl refl) (λ _. inr refl)

  long_bar-IsQuiet : (l : Levels F) → IsQuiet (long_bar l)
  unfolding long_bar close_all
  long_bar-IsQuiet l c t =
      if_then_else-P (IsQuietAt t.reason) t.half_closed _ _
        (λ _. long_trail-IsQuietAt l c (max_f (or_bar t.extreme c.high) c.high) t)
        (λ _.
          if_then_else-P (IsQuietAt t.reason) (le c.low l.stop_price) _ _ (λ _. inl refl)
            (λ _.
              if_then_else-P (IsQuietAt t.reason) (ge c.high l.take_profit_price) _ _
                (λ _.
                  long_trail-IsQuietAt l c (max_f c.high l.take_profit_price)
                    (close_half (sub l.take_profit_price l.entry_price) t))
                (λ _. inr refl)))

  short_trail-IsQuietAt :
      (l : Levels F) (c : Candle F) (lowest : F) (t : Trade F)
      → IsQuietAt t.reason (short_trail l c lowest t)
  unfolding short_trail close_all
  short_trail-IsQuietAt l c lowest t =
      if_then_else-P (IsQuietAt t.reason) (ge c.high (add lowest l.trail)) _ _ (λ _. inl refl)
        (λ _. inr refl)

  short_bar-IsQuiet : (l : Levels F) → IsQuiet (short_bar l)
  unfolding short_bar close_all
  short_bar-IsQuiet l c t =
      if_then_else-P (IsQuietAt t.reason) t.half_closed _ _
        (λ _. short_trail-IsQuietAt l c (min_f (or_bar t.extreme c.low) c.low) t)
        (λ _.
          if_then_else-P (IsQuietAt t.reason) (ge c.high l.stop_price) _ _ (λ _. inl refl)
            (λ _.
              if_then_else-P (IsQuietAt t.reason) (le c.low l.take_profit_price) _ _
                (λ _.
                  short_trail-IsQuietAt l c (min_f c.low l.take_profit_price)
                    (close_half (sub l.entry_price l.take_profit_price) t))
                (λ _. inr refl)))

  -- The loop has stopped, or it has no reason to.
  abbrev IsStable : Trade F → Trade F → Type 0
  IsStable longer shorter = (longer ≡ shorter) ⊎ (shorter.reason ≡ "end_of_data")

  run_bars-stops :
      (bar : Candle F → Trade F → Bool × Trade F)
      → IsQuiet bar
      → (candles more : List (Candle F)) (t : Trade F) → t.reason ≡ "end_of_data"
      → IsStable (run_bars bar (candles ++ more) t) (run_bars bar candles t)
  unfolding run_bars
  run_bars-stops bar quiet [] more t h = inr h
  run_bars-stops bar quiet (c ∷ candles) more t h = elim (Bool-cases (le t.remaining nought)) [
    | inl over ↦ rw over (inl refl)
    | inr unclosed ↦ rw unclosed (elim (Bool-cases (bar c t).0) [
      | inl stops ↦ rw stops (inl refl)
      | inr goes_on ↦ rw goes_on (
          run_bars-stops bar quiet candles more (bar c t).1
            (elim (quiet c t) [ inl stops ↦ cc (stops, goes_on) | inr same ↦ same ∙ h ]))
    ])
  ]

  abbrev reason_of : Outcome (F × F × String) → String
  reason_of (ok r) = r.2
  reason_of (raised e) = "end_of_data"

  -- A trade with another reason than the end of the data has nothing left.
  close_rest-closed :
      (is_long : Bool) (entry_price : F) (last : Option (Candle F)) (t : Trade F)
      (r : F × F × String)
      → r.2 ≢ "end_of_data"
      → close_rest is_long entry_price last t ≡ ok r
      → (gt t.remaining nought ≡ false) × (report entry_price t ≡ r)
  unfolding close_rest
  close_rest-closed is_long entry_price last t r closed h =
      go last (Bool-cases (gt t.remaining nought)) h
    where
      go :
          (last : Option (Candle F))
          → (gt t.remaining nought ≡ true) ⊎ (gt t.remaining nought ≡ false)
          → close_rest is_long entry_price last t ≡ ok r
          → (gt t.remaining nought ≡ false) × (report entry_price t ≡ r)
      go none (inl left) h' = absurd (closed (sym (ap reason_of (rw left at h'))))
      go (some c) (inl left) h' = absurd (closed (sym (ap reason_of (rw left at h'))))
      go none (inr done) h' = (done, cc (rw done at h'))
      go (some c) (inr done) h' = (done, cc (rw done at h'))

  close_rest-kept :
      (is_long : Bool) (entry_price : F) (last : Option (Candle F)) (t : Trade F)
      → gt t.remaining nought ≡ false
      → close_rest is_long entry_price last t ≡ ok (report entry_price t)
  unfolding close_rest
  close_rest-kept is_long entry_price none t done = rw done refl
  close_rest-kept is_long entry_price (some c) t done = rw done refl

  -- What is left over is closed for no reason but the end of the data.
  close_rest-stable :
      (is_long : Bool) (entry_price : F) (last last' : Option (Candle F)) (t t' : Trade F)
      (r : F × F × String)
      → IsStable t' t
      → r.2 ≢ "end_of_data"
      → close_rest is_long entry_price last t ≡ ok r
      → close_rest is_long entry_price last' t' ≡ ok r
  close_rest-stable is_long entry_price last last' t t' r stable closed h =
      let (done, is) = close_rest-closed is_long entry_price last t r closed h in
      elim stable [
        | inl same ↦ rw same (rw (close_rest-kept is_long entry_price last' t done) (ap ok is))
        | inr unclosed ↦ absurd (closed (sym (ap (λ x. x.2) is) ∙ unclosed))
      ]

  -- The two simulations, by the bar and the direction.
  simulation-stable :
      (bar : Candle F → Trade F → Bool × Trade F) (is_long : Bool) (entry_price : F)
      (candles more : List (Candle F)) (entry_idx : ℕ) (r : F × F × String)
      → IsQuiet bar
      → entry_idx ≤ length candles
      → r.2 ≢ "end_of_data"
      → close_rest is_long entry_price
          (last_of candles)
          (run_bars bar (drop entry_idx candles) opened)
        ≡ ok r
      → close_rest is_long entry_price
          (last_of (candles ++ more))
          (run_bars bar (drop entry_idx (candles ++ more)) opened)
        ≡ ok r
  unfolding opened
  simulation-stable bar is_long entry_price candles more entry_idx r quiet inside closed h =
      rw (drop-append entry_idx candles more inside) (
        close_rest-stable is_long entry_price (last_of candles) (last_of (candles ++ more))
          (run_bars bar (drop entry_idx candles) opened)
          (run_bars bar (drop entry_idx candles ++ more) opened) r
          (run_bars-stops bar quiet (drop entry_idx candles) more opened refl) closed h)

  by_side-stable :
      (m : Multiples F) (candles more : List (Candle F)) (signal : Signal F) (entry atr : F)
      (r : F × F × String)
      → suc signal.index ≤ length candles
      → r.2 ≢ "end_of_data"
      → by_side m candles signal entry atr ≡ ok r
      → by_side m (candles ++ more) signal entry atr ≡ ok r
  unfolding by_side simulate_long_trade simulate_short_trade
  by_side-stable m candles more signal entry atr r inside closed h =
      elim (Bool-cases (str_eq signal.side "sell")) [
        | inl sells ↦ rw sells (
            simulation-stable (short_bar (short_levels m entry atr)) false entry candles more
              (suc signal.index) r (short_bar-IsQuiet (short_levels m entry atr)) inside closed
              (rw sells at h))
        | inr buys ↦ rw buys (
            simulation-stable (long_bar (long_levels m entry atr)) true entry candles more
              (suc signal.index) r (long_bar-IsQuiet (long_levels m entry atr)) inside closed
              (rw buys at h))
      ]

  from_entry-stable :
      (m : Multiples F) (candles more : List (Candle F)) (signal : Signal F) (r : F × F × String)
      → suc signal.index ≤ length candles
      → r.2 ≢ "end_of_data"
      → (entry : F) → from_entry m candles signal entry ≡ ok r
      → from_entry m (candles ++ more) signal entry ≡ ok r
  unfolding from_entry from_atr compute_atr
  from_entry-stable m candles more signal r inside closed entry =
      and_then-agrees (raise_if (le entry nought) value_error "invalid_entry_price")
        (λ _. from_atr m candles signal entry) (λ _. from_atr m (candles ++ more) signal entry) r
        (λ _ h.
          rw (window_of-append candles more signal.index m.atr_period (omega (arith, inside))) (
            and_then-agrees (compute_atr candles signal.index m.atr_period)
              (by_side m candles signal entry) (by_side m (candles ++ more) signal entry) r
              (λ atr. by_side-stable m candles more signal entry atr r inside closed) h))

  -- A simulated trade that ends at its stop, or at its trailing stop, on some bars ends in the same
  -- way, with the same gain, when more bars follow: neither the entry, nor the average true range,
  -- nor the exit looks at later bars.
  pub simulate_trade-no_lookahead :
      (slippage_pct : F) (m : Multiples F) (candles more : List (Candle F)) (signal : Signal F)
      (r : F × F × String)
      → simulate_trade slippage_pct m candles signal ≡ ok r
      → r.2 ≢ "end_of_data"
      → simulate_trade slippage_pct m (candles ++ more) signal ≡ ok r
  unfolding simulate_trade
  simulate_trade-no_lookahead slippage_pct m candles more signal r h closed =
      elim (Bool-cases (leb (length candles) (suc signal.index))) [
        | inl short ↦ cc (rw short at h)
        | inr long ↦
            let inside : suc signal.index < length candles = ground arith in
            let longer : leb (length (candles ++ more)) (suc signal.index) ≡ false =
              ground (arith, length-append candles more) in
            rw (longer, get_elem?-append (suc signal.index) candles more inside)
              (and_then-agrees
                (entry_price_n_plus_one_open signal.side slippage_pct
                  (get_elem? candles (suc signal.index)))
                (from_entry m candles signal) (from_entry m (candles ++ more) signal) r
                (from_entry-stable m candles more signal r (omega (arith, inside)) closed)
                (rw long at h))
      ]
