-- ===== src/Backtest/Drawdown.antt =====
-- `_max_drawdown` of app/services/backtest_jobs.py, against the drops of the equity curve.
use haru_trade_manager.Common.{
  ◌≡◌, refl, ◌⊎◌, inl, inr, suc, Bool, true, false, List, [], ◌∷◌, if◌then◌else◌, All,
  if_then_else-P, sym, ap, ◌∙◌, max_f-cases, some, Has, Double, IsOrdered, IsNumber, ◌≼◌, lt, gt,
  add, sub, mul, div, of_nat, nought, max_f, max_f-bounds,
}

-- The equity, its peak and the drawdown so far.
pub record Curve (F : Type 0) : Type 0 where
  pub equity : F
  pub peak : F
  pub max_dd : F

module _ {F : Type 0} ⦃d : Double F⦄ where
  -- `equity *= max(0.0, 1.0 + r)`
  abbrev pub grown : F → F → F
  grown r equity = mul equity (max_f nought (add (of_nat 1) r))

  abbrev pub drop_of : F → F → F
  drop_of equity peak = div (sub peak equity) peak

  -- One step of the loop.
  unfoldable pub step : F → Curve F → Curve F
  step r c =
      let equity = grown r c.equity in
      let peak = max_f c.peak equity in
      record {
        equity = equity;
        peak = peak;
        max_dd = if gt peak nought then max_f c.max_dd (drop_of equity peak) else c.max_dd;
      }

  unfoldable pub run_curve : List F → Curve F → Curve F
  unfolding step
  run_curve [] c = c
  run_curve (r ∷ returns) c = run_curve returns (step r c)

  -- `_max_drawdown`
  unfoldable pub max_drawdown : List F → F
  unfolding run_curve
  max_drawdown returns =
      (run_curve returns (record { equity = of_nat 1; peak = of_nat 1; max_dd = nought })).max_dd

  -- The drop from the peak after each return, where the peak is above zero.
  unfoldable pub drops : F → F → List F → List F
  drops equity peak [] = []
  drops equity peak (r ∷ returns) =
      let equity' = grown r equity in
      let peak' = max_f peak equity' in
      let rest = drops equity' peak' returns in
      if gt peak' nought then drop_of equity' peak' ∷ rest else rest

  -- The greatest of `x` and some others.
  unfoldable pub IsGreatest : F → F → List F → Type 0
  IsGreatest m x xs = (x ≼ m) × All (λ y. y ≼ m) xs × ((m ≡ x) ⊎ Has xs m)

  IsGreatest-cons :
      (ord : IsOrdered F) (m x y : F) (ys : List F)
      → IsNumber x
      → IsNumber y
      → IsGreatest m (max_f x y) ys
      → IsGreatest m x (y ∷ ys)
  unfolding IsGreatest
  IsGreatest-cons ord m x y ys nx ny (above, all, attained) =
      let (x_below, y_below) = max_f-bounds ord x y nx ny in
      (
        ord.le_trans x (max_f x y) m x_below above,
        (ord.le_trans y (max_f x y) m y_below above, all),
        one_of attained,
      )
    where
      one_of : (m ≡ max_f x y) ⊎ Has ys m → (m ≡ x) ⊎ Has (y ∷ ys) m
      one_of (inr (i, e)) = inr (suc i, e)
      one_of (inl e) = elim (max_f-cases x y) [
        | inl first ↦ inl (e ∙ first)
        | inr second ↦ inr (0, ap some (sym (e ∙ second)))
      ]

  max_f-IsNumber : (x y : F) → IsNumber x → IsNumber y → IsNumber (max_f x y)
  max_f-IsNumber x y nx ny = if_then_else-P IsNumber (lt x y) y x (λ _. ny) (λ _. nx)

  -- One step, whether or not its drop counts.
  step-IsGreatest :
      (ord : IsOrdered F) (last : F → F) (dd drop : F) (rest : List F) (counts : Bool)
      → ((dd' : F) → IsNumber dd' → All IsNumber rest → IsGreatest (last dd') dd' rest)
      → IsNumber dd
      → All IsNumber (if counts then drop ∷ rest else rest)
      → IsGreatest
          (last (if counts then max_f dd drop else dd))
          dd
          (if counts then drop ∷ rest else rest)
  step-IsGreatest ord last dd drop rest true go_on n h =
      IsGreatest-cons ord (last (max_f dd drop)) dd drop rest n h.0
        (go_on (max_f dd drop) (max_f-IsNumber dd drop n h.0) h.1)
  step-IsGreatest ord last dd drop rest false go_on n h = go_on dd n h

  run_curve-IsGreatest :
      (ord : IsOrdered F) (returns : List F) (equity peak dd : F)
      → IsNumber dd
      → All IsNumber (drops equity peak returns)
      → IsGreatest
          (run_curve returns (record { equity = equity; peak = peak; max_dd = dd })).max_dd
          dd
          (drops equity peak returns)
  unfolding run_curve step drops IsGreatest
  run_curve-IsGreatest ord [] equity peak dd n h = (n, tt, inl refl)
  run_curve-IsGreatest ord (r ∷ returns) equity peak dd n h =
      let equity' = grown r equity in
      let peak' = max_f peak equity' in
      step-IsGreatest ord
        (λ dd'.
          (run_curve returns (record { equity = equity'; peak = peak'; max_dd = dd' })).max_dd)
        dd (drop_of equity' peak') (drops equity' peak' returns) (gt peak' nought)
        (run_curve-IsGreatest ord returns equity' peak') n h

-- Where no drop is NaN, the drawdown of a backtest is the greatest of 0 and the drops from the running
-- peak of the equity, after each return: none of them is above it, and it is one of them.
pub max_drawdown-IsGreatest :
    {F : Type 0} ⦃d : Double F⦄ (ord : IsOrdered F) (returns : List F)
    → All IsNumber (drops (of_nat 1) (of_nat 1) returns)
    → IsGreatest (max_drawdown returns) nought (drops (of_nat 1) (of_nat 1) returns)
unfolding max_drawdown
max_drawdown-IsGreatest ord returns numbers =
    run_curve-IsGreatest ord returns (of_nat 1) (of_nat 1) nought ord.nought-IsNumber numbers
