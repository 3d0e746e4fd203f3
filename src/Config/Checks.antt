-- ===== src/Config/Checks.antt =====
-- What a value respects that has passed the checks of its key.
use text.Mathlib.Text.{◌==◌ as str_eq}
use haru_trade_manager.Common.{
  ◌≡◌, refl, ℕ, ◌||◌, ◌==◌, length, any, split_on, le, nought, of_nat, if◌then◌else◌, String, Bool,
  true, false, not, Option, none, some, List, [], ◌∷◌, Outcome, ok, raised, value_error, and_then,
  fstring, ◌&&◌, raise_if, member, arith, Dict, lookup, All, Double, lt, Bool-cases, inl, inr,
}
use haru_trade_manager.Config.{
  Rule, Numbers, has_duplicate, strips, close_time_error, check_hhmm, check_priority, rules,
  override_of, raise_below, raise_above, number, has_bounds, check_bounds, check_allowed,
  check_special, check_base, check_rule, check,
}

module _ {F : Type 0} ⦃d : Double F⦄ (numbers : Numbers F) where
  abbrev pub IsNotBelow : Option F → F → Type 0
  IsNotBelow none n = Unit
  IsNotBelow (some low) n = lt n low ≡ false

  abbrev pub IsNotAbove : Option F → F → Type 0
  IsNotAbove none n = Unit
  IsNotAbove (some high) n = lt high n ≡ false

  -- The text is read as a number, and the bounds do not exclude it.
  abbrev pub IsWithin : Rule F → Outcome F → Type 0
  IsWithin rule r = (n : F) × (r ≡ ok n) × IsNotBelow rule.min_value n × IsNotAbove rule.max_value n

  abbrev pub IsAllowed : Option (List String) → String → Type 0
  IsAllowed none value = Unit
  IsAllowed (some values) value = member value values ≡ true

  abbrev pub IsBounded : Bool → Rule F → String → Type 0
  IsBounded false rule value = Unit
  IsBounded true rule value = IsWithin rule (number numbers rule value)

  -- A whole number from 0 to a bound.
  abbrev pub IsUpTo : ℕ → Outcome F → Type 0
  IsUpTo high r = (n : F) × (r ≡ ok n) × (le nought n ≡ true) × (le n (of_nat high) ≡ true)

  -- HH:MM
  abbrev pub IsTime : List String → Type 0
  IsTime (hh ∷ mm ∷ []) = IsUpTo 23 (numbers.as_int hh) × IsUpTo 59 (numbers.as_int mm)
  IsTime _ = ⊥

  -- Strategy numbers, at least one, each once.
  abbrev pub IsPriority : List String → Type 0
  IsPriority chunks =
      ((length chunks == 0) ≡ false)
      × (has_duplicate chunks ≡ false)
      × All (λ x. numbers.isdigit x ≡ true) chunks

  -- What the two settings that are neither numbers nor names respect.
  abbrev pub IsSpecialIf : Bool → Bool → String → Type 0
  IsSpecialIf true is_priority value = IsTime (split_on b':' value)
  IsSpecialIf false true value = IsPriority (strips (split_on b',' value))
  IsSpecialIf false false value = Unit

  abbrev pub IsSpecial : String → String → Type 0
  IsSpecial key = IsSpecialIf (str_eq key "margin_close_time") (str_eq key "margin_close_priority")

  -- The bounds of the parameter that the key overrides.
  abbrev pub IsInBase : Option (Rule F) → String → Type 0
  IsInBase none value = ⊥
  IsInBase (some base) value = IsWithin base (numbers.as_float value)

  -- What a value respects, by its rule or by the parameter that its key overrides; a key that is
  -- neither is not held.
  abbrev pub Respects : String → Option (Rule F) → Option String → String → Type 0
  Respects key (some rule) param value =
      IsBounded (has_bounds rule.min_value rule.max_value) rule value
      × IsAllowed rule.allowed_values value
      × IsSpecial key value
  Respects key none (some param) value = IsInBase (lookup param rules) value
  Respects key none none value = ⊥

  abbrev pub IsSoundRow : String × String → Type 0
  IsSoundRow (key, value) = Respects key (lookup key rules) (override_of key) value

  abbrev pub IsSound : Dict String → Type 0
  IsSound = All IsSoundRow

  bounds-IsWithin :
      (key : String) (rule : Rule F) (r : Outcome F)
      → and_then r (λ n.
        and_then
          (raise_below numbers key rule.min_value n)
          (λ _. raise_above numbers key rule.max_value n))
        ≡ ok tt
      → IsWithin rule r
  unfolding raise_below raise_above
  bounds-IsWithin key rule (raised e) h = cc
  bounds-IsWithin key rule (ok n) h = go rule.min_value rule.max_value h
    where
      go :
          (low high : Option F)
          → and_then (raise_below numbers key low n) (λ _. raise_above numbers key high n) ≡ ok tt
          → (n' : F) × (ok n ≡ ok n') × IsNotBelow low n' × IsNotAbove high n'
      go none none h = (n, refl, tt, tt)
      go none (some high) h = (n, refl, tt, ground arith)
      go (some low) none h = (n, refl, ground arith, tt)
      go (some low) (some high) h = (n, refl, ground arith, ground arith)

  and_then-parts :
      (r₁ r₂ r₃ r₄ : Outcome (Unit {0}))
      → and_then r₁ (λ _. and_then r₂ (λ _. and_then r₃ (λ _. r₄))) ≡ ok tt
      → (r₂ ≡ ok tt) × (r₃ ≡ ok tt) × (r₄ ≡ ok tt)
  and_then-parts (ok _) (ok _) (ok _) r₄ h = (refl, refl, h)
  and_then-parts (ok _) (ok _) (raised e) r₄ h = cc
  and_then-parts (ok _) (raised e) r₃ r₄ h = cc
  and_then-parts (raised e) r₂ r₃ r₄ h = cc

  below-IsUpTo :
      (high : ℕ) (r : Outcome F) (next : Outcome (Unit {0}))
      → and_then r (λ n. if le nought n && le n (of_nat high) then next else close_time_error)
        ≡ ok tt
      → IsUpTo high r × (next ≡ ok tt)
  below-IsUpTo high (raised e) next h = cc h
  below-IsUpTo high (ok n) next h = go (le nought n) (le n (of_nat high)) refl refl h
    where
      go :
          (b c : Bool)
          → le nought n ≡ b
          → le n (of_nat high) ≡ c
          → (if b && c then next else close_time_error) ≡ ok tt
          → IsUpTo high (ok n) × (next ≡ ok tt)
      go true true e e' h = ((n, refl, e, e'), h)
      go true false e e' h = cc h
      go false c e e' h = cc h

  check_hhmm-IsTime : (parts : List String) → check_hhmm numbers parts ≡ ok tt → IsTime parts
  check_hhmm-IsTime [] h = cc h
  check_hhmm-IsTime (hh ∷ []) h = cc h
  check_hhmm-IsTime (hh ∷ mm ∷ []) h =
      let (hours, rest) = below-IsUpTo 23 (numbers.as_int hh) _ h in
      (hours, (below-IsUpTo 59 (numbers.as_int mm) (ok tt) rest).0)
  check_hhmm-IsTime (hh ∷ mm ∷ x ∷ parts) h = cc h

  any-All :
      (chunks : List String)
      → any (λ x. not (numbers.isdigit x)) chunks ≡ false
      → All (λ x. numbers.isdigit x ≡ true) chunks
  any-All [] h = tt
  any-All (x ∷ chunks) h = go (any-All chunks) (numbers.isdigit x) refl h
    where
      go :
          (any (λ y. not (numbers.isdigit y)) chunks ≡ false
            → All (λ y. numbers.isdigit y ≡ true) chunks)
          → (b : Bool) → numbers.isdigit x ≡ b
          → (not b || any (λ y. not (numbers.isdigit y)) chunks) ≡ false
          → (numbers.isdigit x ≡ true) × All (λ y. numbers.isdigit y ≡ true) chunks
      go rest true e h = (e, rest h)
      go rest false e h = cc h

  check_priority-IsPriority :
      (chunks : List String) → check_priority numbers chunks ≡ ok tt → IsPriority chunks
  unfolding check_priority
  check_priority-IsPriority chunks h =
      go (length chunks == 0) (has_duplicate chunks) (any (λ x. not (numbers.isdigit x)) chunks)
        refl refl refl h
    where
      go :
          (a b c : Bool)
          → (length chunks == 0) ≡ a
          → has_duplicate chunks ≡ b
          → any (λ x. not (numbers.isdigit x)) chunks ≡ c
          → and_then (raise_if a value_error "margin_close_priority must not be empty") (λ _.
            and_then (raise_if b value_error "margin_close_priority must be unique") (λ _.
              raise_if c value_error "margin_close_priority must contain numeric strategy IDs"))
            ≡ ok tt
          → IsPriority chunks
      go false false false e₁ e₂ e₃ h = (e₁, e₂, any-All chunks e₃)
      go false false true e₁ e₂ e₃ h = cc h
      go false true c e₁ e₂ e₃ h = cc h
      go true b c e₁ e₂ e₃ h = cc h

  check_special-IsSpecial :
      (key value : String) → check_special numbers key value ≡ ok tt → IsSpecial key value
  unfolding check_special
  check_special-IsSpecial key value h =
      go (str_eq key "margin_close_time") (str_eq key "margin_close_priority") h
    where
      go :
          (b c : Bool)
          → (if b
              then check_hhmm numbers (split_on b':' value)
              else (if c then check_priority numbers (strips (split_on b',' value)) else ok tt))
            ≡ ok tt
          → IsSpecialIf b c value
      go true c h = check_hhmm-IsTime (split_on b':' value) h
      go false true h = check_priority-IsPriority (strips (split_on b',' value)) h
      go false false h = tt

  check_rule-Respects :
      (key value : String) (allow : Bool) (rule : Option (Rule F)) (param : Option String)
      → check_rule numbers key value allow rule param ≡ ok tt
      → Respects key rule param value
  unfolding check_rule check_bounds check_allowed
  check_rule-Respects key value allow (some rule) param h =
      let read_only =
        raise_if (rule.read_only && not allow) value_error (fstring (key ∷ " is read-only" ∷ [])) in
      let (bounds, allowed, special) =
        and_then-parts read_only (check_bounds numbers key rule value)
          (check_allowed numbers key rule.allowed_values value) (check_special numbers key value)
          h in
      (
        bounded bounds,
        listed rule.allowed_values allowed,
        check_special-IsSpecial key value special,
      )
    where
      bounded :
          check_bounds numbers key rule value ≡ ok tt
          → IsBounded (has_bounds rule.min_value rule.max_value) rule value
      bounded e = elim (Bool-cases (has_bounds rule.min_value rule.max_value)) [
        | inl yes_bounds ↦
            rw yes_bounds
              (bounds-IsWithin key rule (number numbers rule value) (rw yes_bounds at e))
        | inr no_bounds ↦ rw no_bounds tt
      ]

      listed :
          (values : Option (List String))
          → check_allowed numbers key values value ≡ ok tt
          → IsAllowed values value
      listed none e = tt
      listed (some values) e = ground arith
  check_rule-Respects key value allow none (some param) h = go (lookup param rules) h
    where
      go :
          (base : Option (Rule F)) → check_base numbers key base value ≡ ok tt → IsInBase base value
      go none h' = cc
      go (some base) h' = bounds-IsWithin key base (numbers.as_float value) h'
  check_rule-Respects key value allow none none h = cc

  pub check-IsSoundRow :
      (key value : String) (allow : Bool)
      → check numbers key value allow ≡ ok tt
      → IsSoundRow (key, value)
  unfolding check
  check-IsSoundRow key value allow =
      check_rule-Respects key value allow (lookup key rules) (override_of key)
