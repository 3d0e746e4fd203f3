-- ===== src/Performance/Flows.antt =====
-- The `while` loop of `equity_curve`, which passes each flow once, against the sum of all flows up to a
-- time.
use mathlib.Core.List.{foldl}
use haru_trade_manager.Common.{
  ◌≡◌, refl, ap, ℕ, ◌≤◌, true, false, Option, none, some, List, [], ◌∷◌, map, arith, leb, ltb, All,
  All-weaken, filter, filter-all, filter-none, IsSorted, Bool-cases, inl, inr, page_by-IsSorted,
  Double, add, sub, sum_f, nought,
}
use haru_trade_manager.Domain.{Datetime}
use haru_trade_manager.Performance.{
  AccountSnapshot, CashFlow, Tables, list_snapshots, list_cash_flows,
}
use haru_trade_manager.Performance.Curve.{
  CurveItem, amounts, pass_flows, curve_step, curve_items, curve_of, whole, return_of,
}

module _ {F : Type 0} where
  abbrev pub flow_key : CashFlow F → ℕ
  flow_key x = x.flow_time

  abbrev pub up_to : Datetime → List (CashFlow F) → List (CashFlow F)
  up_to time = filter (λ x. leb x.flow_time time)

  abbrev later : Datetime → List (CashFlow F) → List (CashFlow F)
  later time = filter (λ x. ltb time x.flow_time)

  later-all :
      (time : Datetime) (x : CashFlow F) (flows : List (CashFlow F))
      → leb x.flow_time time ≡ false
      → All (λ y. x.flow_time ≤ y.flow_time) flows
      → later time flows ≡ flows
  later-all time x flows apart h =
      filter-all (λ y. ltb time y.flow_time) flows
        (All-weaken (λ y. x.flow_time ≤ y.flow_time) (λ y. ltb time y.flow_time ≡ true) flows
          (λ y k. ground (arith, apart, k)) h)

  up_to-none :
      (time : Datetime) (x : CashFlow F) (flows : List (CashFlow F))
      → leb x.flow_time time ≡ false
      → All (λ y. x.flow_time ≤ y.flow_time) flows
      → up_to time flows ≡ []
  up_to-none time x flows apart h =
      filter-none (λ y. leb y.flow_time time) flows
        (All-weaken (λ y. x.flow_time ≤ y.flow_time) (λ y. leb y.flow_time time ≡ false) flows
          (λ y k. ground (arith, apart, k)) h)

module _ {F : Type 0} ⦃d : Double F⦄ where
  -- The flows up to a time, added to a total.
  abbrev total_to : Datetime → List (CashFlow F) → F → F
  total_to time flows total = foldl add total (amounts (up_to time flows))

  -- In the order of time, the loop passes the flows up to a time.
  pass_flows_lem :
      (time : Datetime) (flows : List (CashFlow F)) (total : F)
      → IsSorted flow_key flows
      → pass_flows time flows total ≡ (total_to time flows total, later time flows)
  unfolding pass_flows filter
  pass_flows_lem time [] total h = refl
  pass_flows_lem time (x ∷ flows) total h = elim (Bool-cases (leb x.flow_time time)) [
    | inl passed ↦
        let not_later : ltb time x.flow_time ≡ false = ground arith in
        rw (passed, not_later) (pass_flows_lem time flows (add total x.amount) h.1)
    | inr apart ↦
        let is_later : ltb time x.flow_time ≡ true = ground arith in
        rw (apart, is_later, up_to-none time x flows apart h.0, later-all time x flows apart h.0)
          refl
  ]

  -- The loop goes on where it stopped at an earlier time.
  pass_flows-later :
      (time time' : Datetime) (flows : List (CashFlow F)) (total : F)
      → time ≤ time'
      → IsSorted flow_key flows
      → pass_flows time' (later time flows) (total_to time flows total)
        ≡ (total_to time' flows total, later time' flows)
  unfolding pass_flows filter
  pass_flows-later time time' [] total le h = refl
  pass_flows-later time time' (x ∷ flows) total le h = elim (Bool-cases (leb x.flow_time time)) [
    | inl passed ↦
        let not_later : ltb time x.flow_time ≡ false = ground arith in
        let passed' : leb x.flow_time time' ≡ true = ground arith in
        let not_later' : ltb time' x.flow_time ≡ false = ground arith in
        rw (passed, not_later, passed', not_later')
          (pass_flows-later time time' flows (add total x.amount) le h.1)
    | inr apart ↦
        let is_later : ltb time x.flow_time ≡ true = ground arith in
        rw (apart, is_later, up_to-none time x flows apart h.0, later-all time x flows apart h.0)
          (pass_flows_lem time' (x ∷ flows) total h)
  ]

  -- The assets less all that flowed in up to then.
  abbrev pub adjusted : List (CashFlow F) → AccountSnapshot F → F
  adjusted flows snap = sub snap.total_assets (sum_f (amounts (up_to snap.snapshot_time flows)))

  -- What the account gained from the first snapshot to each.
  abbrev pub gains_of : List (AccountSnapshot F) → List (CashFlow F) → List F
  gains_of [] flows = []
  gains_of (first ∷ snapshots) flows =
      map (λ snap. sub (adjusted flows snap) (adjusted flows first)) (first ∷ snapshots)

  -- From here on, the loop gives the sums of all flows up to a time.
  abbrev IsCaughtUp : List (CashFlow F) → ℕ → List (CashFlow F) → F → Type 0
  IsCaughtUp flows now pending total =
      (time : Datetime)
      → now ≤ time
      → pass_flows time pending total ≡ (total_to time flows nought, later time flows)

  abbrev pub pnls : List (CurveItem F) → List F
  pnls = map (λ x. x.cumulative_pnl)

  abbrev snap_key : AccountSnapshot F → ℕ
  snap_key x = x.snapshot_time

  -- After the first snapshot, each gain is over its adjusted assets.
  curve_items-pnls :
      (flows : List (CashFlow F)) (snapshots : List (AccountSnapshot F)) (now : ℕ)
      (pending : List (CashFlow F)) (total baseline compound : F)
      (prev : Option (AccountSnapshot F))
      → IsSorted flow_key flows
      → IsSorted snap_key snapshots
      → All (λ x. now ≤ x.snapshot_time) snapshots
      → IsCaughtUp flows now pending total
      → pnls
          (curve_items flows snapshots (record {
            pending = pending;
            cumulative_flow = total;
            baseline_adjusted = some baseline;
            twr_compound = compound;
            prev = prev;
          })).0
        ≡ map (λ snap. sub (adjusted flows snap) baseline) snapshots
  unfolding curve_items curve_step
  curve_items-pnls flows [] now pending total baseline compound prev hf hs above caught = refl
  curve_items-pnls flows (snap ∷ snapshots) now pending total baseline compound prev hf hs above
        caught =
      rw (caught snap.snapshot_time above.0) (
        ap (λ rest. sub (adjusted flows snap) baseline ∷ rest)
          (curve_items-pnls flows snapshots snap.snapshot_time (later snap.snapshot_time flows)
            (total_to snap.snapshot_time flows nought) baseline
            (return_of flows prev snap compound).1 (some snap) hf hs.1 hs.0
            (λ time le. pass_flows-later snap.snapshot_time time flows nought le hf)))

  curve_of-gains :
      (flows : List (CashFlow F)) (snapshots : List (AccountSnapshot F))
      → IsSorted flow_key flows
      → IsSorted snap_key snapshots
      → pnls (curve_of snapshots flows).0 ≡ gains_of snapshots flows
  unfolding curve_of curve_items curve_step
  curve_of-gains flows [] hf hs = refl
  curve_of-gains flows (first ∷ snapshots) hf hs =
      rw (pass_flows_lem first.snapshot_time flows nought hf) (
        ap (λ rest. sub (adjusted flows first) (adjusted flows first) ∷ rest)
          (curve_items-pnls flows snapshots first.snapshot_time (later first.snapshot_time flows)
            (total_to first.snapshot_time flows nought) (adjusted flows first)
            (return_of flows none first (d.of_nat 1)).1 (some first) hf hs.1 hs.0
            (λ time le. pass_flows-later first.snapshot_time time flows nought le hf)))

  -- The curve's `cumulative_pnl`, which one pass over the listed flows computes, is at each listed
  -- snapshot the difference of the adjusted assets from the first: the total less the sum of all
  -- listed flows up to the snapshot's time.
  pub curve-gains :
      (start end : Option Datetime) (t : Tables F)
      → let snapshots = list_snapshots (whole start end) 0 5000 t in
        let flows = list_cash_flows (whole start end) 0 5000 t in
        pnls (curve_of snapshots flows).0 ≡ gains_of snapshots flows
  unfolding list_snapshots list_cash_flows
  curve-gains start end t =
      curve_of-gains _ _ (page_by-IsSorted flow_key 0 5000 _) (page_by-IsSorted snap_key 0 5000 _)
