-- ===== src/LoopB/Once.antt =====
-- Each slot of a bar is scanned once.
use text.Mathlib.Text.{◌==◌ as str_eq}
use text.Mathlib.TextEquality.{eq_iff}
use text.Mathlib.TextPositions.{eq_refl}
use haru_trade_manager.Common.{
  ◌≡◌, refl, ◌∙◌, ℕ, ◌+◌, String, true, List, [], ◌∷◌, Act, Outcome, ok, raised, pure, catch, ◌>>=◌,
  All, Bool-cases, inl, inr, Ensures, Ensures-bind, bind-ok,
}
use haru_trade_manager.Schedule.{Clock, due_timeframes, slot_key}
use haru_trade_manager.LoopB.{
  Slots, mark_slot, is_same, mark, skip_sql, sync_slot, scan_one, scan_due, run_once_for_ticker,
}

module _ {W : Type 0} (sync : String → Act W ℕ) (ticker : String) (now : Clock) where
  abbrev pub IsDone : Slots → String → Type 0
  IsDone slots timeframe = is_same (slot_key now timeframe) (slots ticker timeframe) ≡ true

  abbrev Grows : Slots → Slots → Type 0
  Grows slots slots' = (timeframe : String) → IsDone slots timeframe → IsDone slots' timeframe

  mark-Grows :
      (timeframe : String) (slots : Slots)
      → Grows slots (mark_slot ticker timeframe (slot_key now timeframe) slots)
  unfolding mark_slot
  mark-Grows timeframe slots other done = elim (Bool-cases (str_eq timeframe other)) [
    | inl same ↦
        rw (eq_refl ticker, same)
          (rw ((eq_iff timeframe other).0 same) (eq_refl (slot_key now other)))
    | inr apart ↦ rw (eq_refl ticker, apart) done
  ]

  mark-IsDone :
      (timeframe : String) (slots : Slots)
      → IsDone (mark_slot ticker timeframe (slot_key now timeframe) slots) timeframe
  unfolding mark_slot
  mark-IsDone timeframe slots =
      rw (eq_refl ticker, eq_refl timeframe) (eq_refl (slot_key now timeframe))

  -- A sync that does not raise.
  abbrev pub IsSteady : Type 0
  IsSteady = (timeframe : String) (w : W) → Ensures (λ _ _. Unit) (sync timeframe w)

  abbrev Scanned : String → Slots → ℕ → W × Slots → Type 0
  Scanned timeframe slots n w' = Grows slots w'.1 × IsDone w'.1 timeframe

  sync_slot-Scanned :
      (timeframe : String) (w : W) (slots : Slots)
      → IsSteady
      → Ensures (Scanned timeframe slots) (sync_slot sync ticker now timeframe (w, slots))
  unfolding sync_slot
  sync_slot-Scanned timeframe w slots steady = go (sync timeframe w) (steady timeframe w)
    where
      go :
          (r : Outcome ℕ × W)
          → Ensures (λ _ _. Unit) r
          → Ensures (Scanned timeframe slots) (
              catch
                ((λ s. (r.0, (r.1, s.1))) >>= mark sync ticker now timeframe)
                (skip_sql sync ticker now)
                (w, slots))
      go (ok n, w') h = (mark-Grows timeframe slots, mark-IsDone timeframe slots)
      go (raised e, w') h = absurd h

  scan_one-Scanned :
      (timeframe : String) (w : W × Slots)
      → IsSteady
      → Ensures (Scanned timeframe w.1) (scan_one sync ticker now timeframe w)
  unfolding scan_one
  scan_one-Scanned timeframe (w, slots) steady =
      elim (Bool-cases (is_same (slot_key now timeframe) (slots ticker timeframe))) [
        | inl done ↦ rw done ((λ other h. h), done)
        | inr due ↦ rw due (sync_slot-Scanned timeframe w slots steady)
      ]

  scan_due-All :
      (due : List String) (w : W × Slots)
      → IsSteady
      → Ensures (λ _ w'. Grows w.1 w'.1 × All (IsDone w'.1) due) (scan_due sync ticker now due w)
  unfolding scan_due
  scan_due-All [] w steady = ((λ other h. h), tt)
  scan_due-All (timeframe ∷ due) w steady =
      Ensures-bind (Scanned timeframe w.1)
        (λ _ w'. Grows w.1 w'.1 × All (IsDone w'.1) (timeframe ∷ due))
        (scan_one sync ticker now timeframe)
        (λ n. scan_due sync ticker now due >>= λ more. pure (n + more)) w
        (scan_one-Scanned timeframe w steady)
        (λ n w₁ first.
          Ensures-bind (λ _ w₂. Grows w₁.1 w₂.1 × All (IsDone w₂.1) due)
            (λ _ w₂. Grows w.1 w₂.1 × All (IsDone w₂.1) (timeframe ∷ due))
            (scan_due sync ticker now due) (λ more. pure (n + more)) w₁ (scan_due-All due w₁ steady)
            (λ more w₂ rest.
              ((λ other h. rest.0 other (first.0 other h)), (rest.0 timeframe first.1, rest.1))))

  scan_one-idle :
      (timeframe : String) (w : W × Slots)
      → IsDone w.1 timeframe
      → scan_one sync ticker now timeframe w ≡ (ok 0, w)
  unfolding scan_one
  scan_one-idle timeframe (w, slots) done = rw done refl

  -- Nothing is left to do where every bar is done.
  scan_due-idle :
      (due : List String) (w : W × Slots)
      → All (IsDone w.1) due
      → scan_due sync ticker now due w ≡ (ok 0, w)
  unfolding scan_due
  scan_due-idle [] w done = refl
  scan_due-idle (timeframe ∷ due) w done =
      bind-ok (scan_one sync ticker now timeframe)
        (λ n. scan_due sync ticker now due >>= λ more. pure (n + more)) w 0 w
        (scan_one-idle timeframe w done.0)
      ∙ bind-ok (scan_due sync ticker now due) (λ more. pure (0 + more)) w 0 w
          (scan_due-idle due w done.1)

  -- Where no sync raises: a run of loop B for a ticker ends with a number, and a second run in the
  -- same minute scans nothing, counts nothing and leaves everything as it is.
  pub run_once_for_ticker-idempotent :
      (w : W × Slots)
      → IsSteady
      → Ensures
          (λ _ w'. run_once_for_ticker sync ticker now w' ≡ (ok 0, w'))
          (run_once_for_ticker sync ticker now w)
  unfolding run_once_for_ticker
  run_once_for_ticker-idempotent w steady =
      go (scan_due sync ticker now (due_timeframes now) w)
        (scan_due-All (due_timeframes now) w steady)
    where
      go :
          (r : Outcome ℕ × (W × Slots))
          → Ensures (λ _ w'. Grows w.1 w'.1 × All (IsDone w'.1) (due_timeframes now)) r
          → Ensures (λ _ w'. scan_due sync ticker now (due_timeframes now) w' ≡ (ok 0, w')) r
      go (ok n, w') h = scan_due-idle (due_timeframes now) w' h.1
      go (raised e, w') h = absurd h
