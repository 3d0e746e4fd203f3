-- ===== src/Common/Dicts.antt =====
-- A Python dict keyed by texts, as an association list.
use text.Mathlib.Text.{◌==◌ as str_eq}
use text.Mathlib.TextEquality.{eq_iff}
use text.Mathlib.TextPositions.{eq_refl}
use mathlib.Core.Path.{◌≡◌, refl}
use mathlib.Core.Bool.{false}
use mathlib.Core.Option.{Option, none, some}
use mathlib.Core.List.{List, [], ◌∷◌}
use native.Mathlib.Omega.{arith}
use Prim.Native.String.{String}
use mathlib.Core.Logic.{inl, inr}
use haru_trade_manager.Common.Tests.{if◌then◌else◌, Bool-cases}
use haru_trade_manager.Common.Lists.{All}

abbrev pub Dict : Type 0 → Type 0
Dict V = List (String × V)

module _ {V : Type 0} where
  -- `m.get(key)`
  unfoldable pub lookup : String → Dict V → Option V
  lookup key [] = none
  lookup key ((other, value) ∷ rows) =
      let found = lookup key rows in if str_eq other key then some value else found

  -- `m.pop(key, None)`
  unfoldable pub erase : String → Dict V → Dict V
  erase key [] = []
  erase key ((other, value) ∷ rows) =
      let kept = erase key rows in if str_eq other key then kept else (other, value) ∷ kept

  -- `m[key] = value`
  unfoldable pub insert : String → V → Dict V → Dict V
  insert key value [] = (key, value) ∷ []
  insert key value ((other, old) ∷ rows) =
      let changed = insert key value rows in
      if str_eq other key then (key, value) ∷ rows else (other, old) ∷ changed

  pub lookup-erase :
      (gone key : String) (rows : Dict V)
      → lookup key (erase gone rows) ≡ (if str_eq gone key then none else lookup key rows)
  unfolding lookup erase
  lookup-erase gone key [] = ground arith
  lookup-erase gone key ((other, value) ∷ rows) =
      let same = eq_iff other in
      ground (arith, same gone, same key, eq_iff gone key, lookup-erase gone key rows)

  pub lookup-insert :
      (set key : String) (value : V) (rows : Dict V)
      → lookup key (insert set value rows)
        ≡ (if str_eq set key then some value else lookup key rows)
  unfolding lookup insert
  lookup-insert set key value [] = refl
  lookup-insert set key value ((other, old) ∷ rows) =
      let same = eq_iff other in
      ground (arith, same set, same key, eq_iff set key, lookup-insert set key value rows)

  pub lookup-insert_self :
      (key : String) (value : V) (rows : Dict V) → lookup key (insert key value rows) ≡ some value
  lookup-insert_self key value rows = rw (lookup-insert key key value rows) (rw (eq_refl key))

  pub lookup-insert_ne :
      (set key : String) (value : V) (rows : Dict V)
      → str_eq set key ≡ false
      → lookup key (insert set value rows) ≡ lookup key rows
  lookup-insert_ne set key value rows differs = rw (lookup-insert set key value rows) (rw differs)

  -- A predicate of the rows is kept by a write of a row that has it.
  pub All-insert {κ} :
      (P : String × V → Type κ) (key : String) (value : V) (rows : Dict V)
      → P (key, value)
      → All P rows
      → All P (insert key value rows)
  unfolding insert
  All-insert P key value [] p h = (p, tt)
  All-insert P key value ((other, old) ∷ rows) p h = elim (Bool-cases (str_eq other key)) [
    | inl same ↦ rw same (p, h.1)
    | inr apart ↦ rw apart (h.0, All-insert P key value rows p h.1)
  ]
