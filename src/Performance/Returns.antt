-- ===== src/Performance/Returns.antt =====
-- The time-weighted return, which `_compute_twr` and `equity_curve` each compute with a loop of their own.
use haru_trade_manager.Common.{
  ◌≡◌, refl, ap, ◌∙◌, Bool, true, not, Option, some, List, [], ◌∷◌, if◌then◌else◌, Bool-cases, inl,
  inr, Double, IsOrdered, IsNumber, sub, mul, le, nought, max_f,
}
use haru_trade_manager.Performance.{AccountSnapshot, CashFlow}
use haru_trade_manager.Performance.Curve.{
  gross_of, compound_from, compute_twr, pass_flows, curve_step, curve_items, curve_of, return_of,
  or_first,
}

module _ {F : Type 0} ⦃d : Double F⦄ (o : IsOrdered F) (isfinite : F → Bool) where
  -- Totals are numbers, and the growth of every period is finite.
  abbrev pub IsTame : List (CashFlow F) → AccountSnapshot F → List (AccountSnapshot F) → Type 0
  IsTame flows prev [] = Unit
  IsTame flows prev (curr ∷ snapshots) =
      IsNumber prev.total_assets
      × (isfinite (gross_of flows prev curr) ≡ true)
      × IsTame flows curr snapshots

  abbrev pub IsTameFrom : List (CashFlow F) → List (AccountSnapshot F) → Type 0
  IsTameFrom flows [] = Unit
  IsTameFrom flows (first ∷ snapshots) = IsTame flows first snapshots

  -- `> 0` on one side and `<= 0` on the other.
  return_of-compound :
      (flows : List (CashFlow F)) (prev curr : AccountSnapshot F) (compound : F)
      → IsNumber prev.total_assets
      → isfinite (gross_of flows prev curr) ≡ true
      → (return_of flows (some prev) curr compound).1 ≡ (
          if le prev.total_assets nought
          then compound
          else if not (isfinite (gross_of flows prev curr))
          then compound
          else mul compound (max_f (gross_of flows prev curr) nought))
  return_of-compound flows prev curr compound number finite =
      let same = o.lt-eq-not-le nought prev.total_assets o.nought-IsNumber number in
      elim (Bool-cases (le prev.total_assets nought)) [
        | inl empty ↦ rw (same, empty) refl
        | inr filled ↦ rw (same, filled, finite) refl
      ]

  curve_items-compound :
      (flows : List (CashFlow F)) (snapshots : List (AccountSnapshot F)) (prev : AccountSnapshot F)
      (pending : List (CashFlow F)) (total compound : F) (baseline : Option F)
      → IsTame flows prev snapshots
      → (curve_items flows snapshots (record {
        pending = pending;
        cumulative_flow = total;
        baseline_adjusted = baseline;
        twr_compound = compound;
        prev = some prev;
      })).1
        ≡ compound_from isfinite flows compound prev snapshots
  unfolding curve_items curve_step compound_from
  curve_items-compound flows [] prev pending total compound baseline h = refl
  curve_items-compound flows (snap ∷ snapshots) prev pending total compound baseline h =
      let passed = pass_flows snap.snapshot_time pending total in
      curve_items-compound flows snapshots snap passed.1 passed.0
        (return_of flows (some prev) snap compound).1
        (some (or_first baseline (sub snap.total_assets passed.0))) h.2
      ∙ ap (λ c. compound_from isfinite flows c snap snapshots)
          (return_of-compound flows prev snap compound h.0 h.1)

  -- Where the totals are numbers and the growth of every period is finite, the return at the end of
  -- the curve is the one of the report.
  pub curve_of-compute_twr :
      (snapshots : List (AccountSnapshot F)) (flows : List (CashFlow F))
      → IsTameFrom flows snapshots
      → (curve_of snapshots flows).1 ≡ compute_twr isfinite snapshots flows
  unfolding curve_of curve_items curve_step compute_twr
  curve_of-compute_twr [] flows h = refl
  curve_of-compute_twr (first ∷ snapshots) flows h =
      let passed = pass_flows first.snapshot_time flows nought in
      ap (λ c. sub c (d.of_nat 1))
        (curve_items-compound flows snapshots first passed.1 passed.0 (d.of_nat 1)
          (some (sub first.total_assets passed.0)) h)
