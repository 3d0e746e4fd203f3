-- ===== src/Common/Floats.antt =====
-- Python's `float`: the operations that the program uses, as an interface, the facts about IEEE
-- doubles that theorems rest on, and whole numbers as a model in which the facts hold.
use mathlib.Core.Path.{◌≡◌, refl}
use mathlib.Core.Logic.{◌⊎◌, inl, inr}
use mathlib.Core.Bool.{Bool, true, not, ◌&&◌}
use Prim.Native.Nat.{ℕ}
use mathlib.Core.List.{List, foldl}
use native.Mathlib.Omega.{arith}
use haru_trade_manager.Common.Tests.{if◌then◌else◌, Bool-cases}
use haru_trade_manager.Common.Int.{
  ℤ, pos, ◌+ℤ◌, ◌-ℤ◌, ◌*ℤ◌, quot_ℤ, abs_ℤ, leb_ℤ, ltb_ℤ, -ℤ_parts, +ℤ_parts, abs_ℤ-nonneg,
}

pub record Double (F : Type 0) : Type 0 where
  pub of_nat : ℕ → F
  pub le : F → F → Bool
  pub lt : F → F → Bool
  pub add : F → F → F
  pub sub : F → F → F
  pub mul : F → F → F
  pub div : F → F → F
  pub abs : F → F

module _ {F : Type 0} ⦃d : Double F⦄ where
  abbrev pub add : F → F → F
  add = d.add

  abbrev pub sub : F → F → F
  sub = d.sub

  abbrev pub mul : F → F → F
  mul = d.mul

  abbrev pub div : F → F → F
  div = d.div

  abbrev pub abs_f : F → F
  abs_f = d.abs

  abbrev pub le : F → F → Bool
  le = d.le

  abbrev pub lt : F → F → Bool
  lt = d.lt

  abbrev pub ge : F → F → Bool
  ge x y = d.le y x

  abbrev pub gt : F → F → Bool
  gt x y = d.lt y x

  -- `==` of floats: NaN is not equal to itself.
  abbrev pub eq : F → F → Bool
  eq x y = d.le x y && d.le y x

  abbrev pub of_nat : ℕ → F
  of_nat = d.of_nat

  -- 0.0
  abbrev pub nought : F
  nought = d.of_nat 0

  -- Python's `max(x, y)`: the first argument, unless the second is greater.
  abbrev pub max_f : F → F → F
  max_f x y = if d.lt x y then y else x

  -- Python's `min(x, y)`: the first argument, unless the second is less.
  abbrev pub min_f : F → F → F
  min_f x y = if d.lt y x then y else x

  -- `sum(xs)`: from the left, beginning at 0.
  abbrev pub sum_f : List F → F
  sum_f = foldl d.add (d.of_nat 0)

  infix 4 ◌≼◌
  abbrev pub ◌≼◌ : F → F → Type 0
  x ≼ y = d.le x y ≡ true

  abbrev pub IsNumber : F → Type 0
  IsNumber x = d.le x x ≡ true

-- The order, away from NaN, and rounding: a difference is no more than what it is taken from.
pub record IsOrdered (F : Type 0) ⦃d : Double F⦄ : Type 0 where
  pub nought-IsNumber : IsNumber {F = F} nought
  pub number_of_le : (x y : F) → x ≼ y → IsNumber x × IsNumber y
  pub number_of_lt : (x y : F) → lt x y ≡ true → IsNumber x × IsNumber y
  pub le_trans : (x y z : F) → x ≼ y → y ≼ z → x ≼ z
  pub le_total : (x y : F) → IsNumber x → IsNumber y → (x ≼ y) ⊎ (y ≼ x)
  pub lt-eq-not-le : (x y : F) → IsNumber x → IsNumber y → lt x y ≡ not (le y x)
  pub le-add : (x y : F) → nought ≼ y → IsNumber (add x y) → x ≼ add x y
  pub abs-nonneg : (x : F) → IsNumber (abs_f x) → nought ≼ abs_f x
  pub sub-self : (x : F) → IsNumber (sub x x) → sub x x ≼ nought
  pub sub-le : (x y : F) → nought ≼ y → IsNumber (sub x y) → sub x y ≼ x

-- `max` is no less than either argument, where both are numbers.
pub max_f-bounds :
    {F : Type 0} ⦃d : Double F⦄ (ord : IsOrdered F) (x y : F)
    → IsNumber x
    → IsNumber y
    → (x ≼ max_f x y) × (y ≼ max_f x y)
max_f-bounds ord x y hx hy = ground (arith, ord.lt-eq-not-le x y hx hy, ord.le_total x y hx hy)

pub max_f-cases : {F : Type 0} ⦃d : Double F⦄ (x y : F) → (max_f x y ≡ x) ⊎ (max_f x y ≡ y)
max_f-cases x y = elim (Bool-cases (lt x y)) [
  | inl less ↦ inr (rw less refl)
  | inr no_less ↦ inl (rw no_less refl)
]

-- Whole numbers, with a quotient rounded towards 0.
instance abbrev pub ℤ_double : Double ℤ
ℤ_double = record {
  of_nat = pos;
  le = leb_ℤ;
  lt = ltb_ℤ;
  add = ◌+ℤ◌;
  sub = ◌-ℤ◌;
  mul = ◌*ℤ◌;
  div = quot_ℤ;
  abs = abs_ℤ;
}

pub ℤ-IsOrdered : IsOrdered ℤ
ℤ-IsOrdered = record {
  nought-IsNumber = ground arith;
  number_of_le = λ x y h. (ground arith, ground arith);
  number_of_lt = λ x y h. (ground arith, ground arith);
  le_trans = λ x y z h k. ground arith;
  le_total = λ x y h k. ground arith;
  lt-eq-not-le = λ x y h k. ground arith;
  le-add = λ x y h k. ground (arith, +ℤ_parts x y);
  abs-nonneg = λ x h. abs_ℤ-nonneg x;
  sub-self = λ x h. ground (arith, -ℤ_parts x x);
  sub-le = λ x y h k. ground (arith, -ℤ_parts x y);
}
