-- ===== src/Common/Sorting.antt =====
-- Filtering by a Boolean test, and lists in the order of a number, such as rows in the order of time.
use Prim.Native.Nat.{ℕ, zero, suc, ◌≤◌}
use mathlib.Core.Path.{◌≡◌, refl, ap, ◌∙◌}
use mathlib.Core.Logic.{inl, inr}
use mathlib.Core.Bool.{Bool, true, false}
use mathlib.Core.List.{List, [], ◌∷◌, ◌++◌}
use native.Mathlib.Omega.{arith}
use haru_trade_manager.Common.Tests.{leb, if◌then◌else◌, Bool-cases, if_then_else-P}
use haru_trade_manager.Common.Lists.{All, All-weaken, length, take, drop}

module _ {A : Type 0} where
  -- `[x for x in xs if test(x)]`
  unfoldable pub filter : (A → Bool) → List A → List A
  filter test [] = []
  filter test (x ∷ xs) = let rest = filter test xs in if test x then x ∷ rest else rest

  pub All-filter :
      (P : A → Type 0) (test : A → Bool) (xs : List A) → All P xs → All P (filter test xs)
  unfolding filter
  All-filter P test [] h = tt
  All-filter P test (x ∷ xs) h =
      if_then_else-P (All P) (test x) _ _ (λ _. (h.0, All-filter P test xs h.1))
        (λ _. All-filter P test xs h.1)

  pub filter-all :
      (test : A → Bool) (xs : List A) → All (λ x. test x ≡ true) xs → filter test xs ≡ xs
  unfolding filter
  filter-all test [] h = refl
  filter-all test (x ∷ xs) h = rw h.0 (ap (λ rest. x ∷ rest) (filter-all test xs h.1))

  pub filter-none :
      (test : A → Bool) (xs : List A) → All (λ x. test x ≡ false) xs → filter test xs ≡ []
  unfolding filter
  filter-none test [] h = refl
  filter-none test (x ∷ xs) h = rw h.0 (filter-none test xs h.1)

  module _ (key : A → ℕ) where
    unfoldable pub insert_by : A → List A → List A
    insert_by x [] = x ∷ []
    insert_by x (y ∷ ys) =
        let rest = insert_by x ys in if leb (key x) (key y) then x ∷ y ∷ ys else y ∷ rest

    -- `sorted(xs, key=key)`: equal keys keep their order.
    unfoldable pub sort_by : List A → List A
    unfolding insert_by
    sort_by [] = []
    sort_by (x ∷ xs) = insert_by x (sort_by xs)

    abbrev pub IsSorted : List A → Type 0
    IsSorted [] = Unit
    IsSorted (x ∷ xs) = All (λ y. key x ≤ key y) xs × IsSorted xs

    insert_by-All : (P : A → Type 0) (x : A) (ys : List A) → P x → All P ys → All P (insert_by x ys)
    unfolding insert_by
    insert_by-All P x [] p h = (p, tt)
    insert_by-All P x (y ∷ ys) p h =
        if_then_else-P (All P) (leb (key x) (key y)) _ _ (λ _. (p, h))
          (λ _. (h.0, insert_by-All P x ys p h.1))

    insert_by-IsSorted : (x : A) (ys : List A) → IsSorted ys → IsSorted (insert_by x ys)
    unfolding insert_by
    insert_by-IsSorted x [] h = (tt, tt)
    insert_by-IsSorted x (y ∷ ys) h =
        if_then_else-P IsSorted (leb (key x) (key y)) _ _
          (λ first.
            let below : key x ≤ key y = ground arith in
            (
              (
                below,
                All-weaken (λ z. key y ≤ key z) (λ z. key x ≤ key z) ys
                    (λ z k. omega (arith, below, k)) h.0,
              ),
              h,
            ))
          (λ later. (
            insert_by-All (λ z. key y ≤ key z) x ys (ground arith) h.0,
            insert_by-IsSorted x ys h.1,
          ))

    pub sort_by-IsSorted : (xs : List A) → IsSorted (sort_by xs)
    unfolding sort_by
    sort_by-IsSorted [] = tt
    sort_by-IsSorted (x ∷ xs) = insert_by-IsSorted x (sort_by xs) (sort_by-IsSorted xs)

    pub All-sort_by : (P : A → Type 0) (xs : List A) → All P xs → All P (sort_by xs)
    unfolding sort_by
    All-sort_by P [] h = tt
    All-sort_by P (x ∷ xs) h = insert_by-All P x (sort_by xs) h.0 (All-sort_by P xs h.1)

    length-insert_by : (x : A) (ys : List A) → length (insert_by x ys) ≡ suc (length ys)
    unfolding insert_by
    length-insert_by x [] = refl
    length-insert_by x (y ∷ ys) = ground (arith, length-insert_by x ys)

    pub length-sort_by : (xs : List A) → length (sort_by xs) ≡ length xs
    unfolding sort_by
    length-sort_by [] = refl
    length-sort_by (x ∷ xs) = omega (arith, length-insert_by x (sort_by xs), length-sort_by xs)

    insert_by-append :
        (x last : A) (ys : List A)
        → key x ≤ key last
        → insert_by x (ys ++ last ∷ []) ≡ insert_by x ys ++ last ∷ []
    unfolding insert_by
    insert_by-append x last [] h =
        let first : leb (key x) (key last) ≡ true = ground arith in rw first refl
    insert_by-append x last (y ∷ ys) h = elim (Bool-cases (leb (key x) (key y))) [
      | inl first ↦ rw first refl
      | inr apart ↦ rw apart (ap (λ rest. y ∷ rest) (insert_by-append x last ys h))
    ]

    -- The last element stays the last, where no key is above its own.
    pub sort_by-append :
        (last : A) (xs : List A)
        → All (λ x. key x ≤ key last) xs
        → sort_by (xs ++ last ∷ []) ≡ sort_by xs ++ last ∷ []
    unfolding sort_by insert_by
    sort_by-append last [] h = refl
    sort_by-append last (x ∷ xs) h =
        ap (insert_by x) (sort_by-append last xs h.1) ∙ insert_by-append x last (sort_by xs) h.0

    drop-IsSorted : (n : ℕ) (xs : List A) → IsSorted xs → IsSorted (drop n xs)
    drop-IsSorted zero xs h = h
    drop-IsSorted (suc n) [] h = h
    drop-IsSorted (suc n) (x ∷ xs) h = drop-IsSorted n xs h.1

    pub All-take : (P : A → Type 0) (n : ℕ) (xs : List A) → All P xs → All P (take n xs)
    All-take P zero xs h = tt
    All-take P (suc n) [] h = tt
    All-take P (suc n) (x ∷ xs) h = (h.0, All-take P n xs h.1)

    take-IsSorted : (n : ℕ) (xs : List A) → IsSorted xs → IsSorted (take n xs)
    take-IsSorted zero xs h = tt
    take-IsSorted (suc n) [] h = h
    take-IsSorted (suc n) (x ∷ xs) h =
        (All-take (λ y. key x ≤ key y) n xs h.0, take-IsSorted n xs h.1)

    -- `.order_by(key.asc()).offset(offset).limit(limit)`; rows of equal keys come in the order of
    -- their insertion, which a database leaves open.
    unfoldable pub page_by : ℕ → ℕ → List A → List A
    page_by offset limit xs = take limit (drop offset (sort_by xs))

    pub page_by-IsSorted : (offset limit : ℕ) (xs : List A) → IsSorted (page_by offset limit xs)
    unfolding page_by
    page_by-IsSorted offset limit xs =
        take-IsSorted limit (drop offset (sort_by xs))
          (drop-IsSorted offset (sort_by xs) (sort_by-IsSorted xs))
