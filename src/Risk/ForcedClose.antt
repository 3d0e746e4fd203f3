-- ===== src/Risk/ForcedClose.antt =====
-- Which positions `margin_forced_close_order` closes: in the order of priority, and no more than
-- the margin asks for.
use mathlib.Core.Path.{subst}
use mathlib.Core.List.{Perm}
use mathlib.Core.List.Perm
use haru_trade_manager.Common.{
  ℕ, ◌≤◌, ◌≡◌, refl, ap, sym, ◌⊎◌, inl, inr, String, false, List, [], ◌∷◌, ◌++◌, map, arith, All,
  Bool-cases, leb, if◌then◌else◌, Double, le, sub, ◌≼◌, sum_f,
}
use haru_trade_manager.Risk.{
  PositionExposure, rank, insert, by_priority, close_until, margin_forced_close_order,
}

module _ {F : Type 0} ⦃d : Double F⦄ (priority : List String) where
  abbrev place : PositionExposure F → ℕ
  place x = rank priority x.strategy_id

  -- x stands at the front of the rows, or level with it.
  abbrev pub IsFirst : PositionExposure F → List (PositionExposure F) → Type 0
  IsFirst x = All λ y. place x ≤ place y

  abbrev IsSorted : List (PositionExposure F) → Type 0
  IsSorted [] = Unit
  IsSorted (x ∷ xs) = IsFirst x xs × IsSorted xs

  IsFirst-trans :
      (x y : PositionExposure F) (ys : List (PositionExposure F))
      → place x ≤ place y
      → IsFirst y ys
      → IsFirst x ys
  IsFirst-trans x y [] h k = tt
  IsFirst-trans x y (z ∷ zs) h k = (omega arith, IsFirst-trans x y zs h k.1)

  insert-IsFirst :
      (x y : PositionExposure F) (ys : List (PositionExposure F))
      → place y ≤ place x
      → IsFirst y ys
      → IsFirst y (insert priority x ys)
  unfolding insert
  insert-IsFirst x y [] h k = (h, tt)
  insert-IsFirst x y (z ∷ zs) h k = elim (Bool-cases (leb (place x) (place z))) [
    | inl before ↦ rw before (h, k)
    | inr behind ↦ rw behind (k.0, insert-IsFirst x y zs h k.1)
  ]

  insert-IsSorted :
      (x : PositionExposure F) (ys : List (PositionExposure F))
      → IsSorted ys
      → IsSorted (insert priority x ys)
  unfolding insert
  insert-IsSorted x [] s = (tt, tt)
  insert-IsSorted x (y ∷ ys) s = elim (Bool-cases (leb (place x) (place y))) [
    | inl before ↦ rw before ((ground arith, IsFirst-trans x y ys (ground arith) s.0), s)
    | inr behind ↦ rw behind (insert-IsFirst x y ys (ground arith) s.0, insert-IsSorted x ys s.1)
  ]

  by_priority-IsSorted : (xs : List (PositionExposure F)) → IsSorted (by_priority priority xs)
  unfolding by_priority
  by_priority-IsSorted [] = tt
  by_priority-IsSorted (x ∷ xs) = insert-IsSorted x _ (by_priority-IsSorted xs)

  insert-perm :
      (x : PositionExposure F) (ys : List (PositionExposure F))
      → Perm (insert priority x ys) (x ∷ ys)
  unfolding insert
  insert-perm x [] = Perm.refl _
  insert-perm x (y ∷ ys) = elim (Bool-cases (leb (place x) (place y))) [
    | inl before ↦ rw before (Perm.refl _)
    | inr behind ↦ rw behind (Perm.trans (Perm.cons y (insert-perm x ys)) (Perm.swap _ _ _))
  ]

  by_priority-perm : (xs : List (PositionExposure F)) → Perm (by_priority priority xs) xs
  unfolding by_priority
  by_priority-perm [] = Perm.refl _
  by_priority-perm (x ∷ xs) = Perm.trans (insert-perm x _) (Perm.cons x (by_priority-perm xs))

  -- Each closed row stands before each row that is kept.
  abbrev pub AreFirst : List (PositionExposure F) → List (PositionExposure F) → Type 0
  AreFirst closed kept = All (λ x. IsFirst x kept) closed

  All-append_right :
      (x : PositionExposure F) (closed kept : List (PositionExposure F))
      → IsFirst x (closed ++ kept)
      → IsFirst x kept
  All-append_right x [] kept h = h
  All-append_right x (c ∷ closed) kept h = All-append_right x closed kept h.1

  IsSorted-AreFirst :
      (closed kept : List (PositionExposure F)) → IsSorted (closed ++ kept) → AreFirst closed kept
  IsSorted-AreFirst [] kept s = tt
  IsSorted-AreFirst (c ∷ closed) kept s =
      (All-append_right c closed kept s.0, IsSorted-AreFirst closed kept s.1)

module _ {F : Type 0} ⦃d : Double F⦄ where
  -- The exposure that is left after the rows are closed one by one.
  abbrev pub drain : F → List (PositionExposure F) → F
  drain running [] = running
  drain running (x ∷ xs) = drain (sub running x.market_value) xs

  -- The rows are closed one by one only while the exposure is above the base.
  abbrev pub AreNeeded : F → F → List (PositionExposure F) → Type 0
  AreNeeded base running [] = Unit
  AreNeeded base running (x ∷ xs) =
      (le running base ≡ false) × AreNeeded base (sub running x.market_value) xs

  -- The rows that are closed, and the rest.
  closed_rows : F → F → List (PositionExposure F) → List (PositionExposure F)
  closed_rows base running [] = []
  closed_rows base running (x ∷ xs) =
      let left = sub running x.market_value in
      let rest = closed_rows base left xs in x ∷ (if le left base then [] else rest)

  kept_rows : F → F → List (PositionExposure F) → List (PositionExposure F)
  kept_rows base running [] = []
  kept_rows base running (x ∷ xs) =
      let left = sub running x.market_value in
      let rest = kept_rows base left xs in if le left base then xs else rest

  abbrev Cuts : F → F → List (PositionExposure F) → Type 0
  Cuts base running rows =
      let closed = closed_rows base running rows in
      let kept = kept_rows base running rows in
      (closed ++ kept ≡ rows)
      × (close_until base running rows ≡ map (λ x. x.position_id) closed)
      × AreNeeded base running closed
      × ((drain running closed ≼ base) ⊎ (kept ≡ []))

  close_until-Cuts :
      (base running : F) (rows : List (PositionExposure F))
      → le running base ≡ false
      → Cuts base running rows
  unfolding close_until closed_rows kept_rows
  close_until-Cuts base running [] h = (refl, refl, tt, inr refl)
  close_until-Cuts base running (x ∷ xs) h =
      elim (Bool-cases (le (sub running x.market_value) base)) [
        | inl stop ↦ rw stop (refl, refl, (h, tt), inl stop)
        | inr more ↦
            let (whole, ids, needed, ends) =
              close_until-Cuts base (sub running x.market_value) xs more in
            rw more (ap (◌∷◌ x) whole, ap (◌∷◌ x.position_id) ids, (h, needed), ends)
      ]

module _ {F : Type 0} ⦃d : Double F⦄ (exposures : List (PositionExposure F)) (base : F)
    (priority : List String) where
  abbrev total : F
  total = sum_f (map (λ x. x.market_value) exposures)

  -- When the exposures exceed the base, the positions that are closed are the first ones in the
  -- order of priority, each closed while what was left still exceeded the base, and either what is
  -- left in the end is within the base or every position is closed.
  pub margin_forced_close_order_lem :
      le total base ≡ false
      → (closed kept : List (PositionExposure F)) × Perm (closed ++ kept) exposures
        × (margin_forced_close_order exposures base priority ≡ map (λ x. x.position_id) closed)
        × AreFirst priority closed kept
        × AreNeeded base total closed
        × ((drain total closed ≼ base) ⊎ (kept ≡ []))
  unfolding margin_forced_close_order
  margin_forced_close_order_lem over =
      let rows = by_priority priority exposures in
      let closed = closed_rows base total rows in
      let kept = kept_rows base total rows in
      let (whole, ids, needed, ends) = close_until-Cuts base total rows over in
      (
        closed,
        kept,
        rw whole (by_priority-perm priority exposures),
        rw over ids,
        IsSorted-AreFirst priority closed kept
            (subst (IsSorted priority) (sym whole) (by_priority-IsSorted priority exposures)),
        needed,
        ends,
      )

  -- Exposures within the base close nothing.
  margin_forced_close_order_within :
      total ≼ base → margin_forced_close_order exposures base priority ≡ []
  unfolding margin_forced_close_order
  margin_forced_close_order_within h = rw h
