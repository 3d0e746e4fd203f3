-- ===== src/Config.antt =====
-- `ConfigManager` of app/core/config.py: the rules of the settings, and `set` with its checks. The
-- values are texts; how Python reads a number from a text is an argument.
pub mod Manager
pub mod Checks
pub mod Sound
pub mod Store
pub mod Writes
pub mod Kept
use text.Mathlib.Text.{◌==◌ as str_eq}
use haru_trade_manager.Common.{
  ℕ, zero, suc, String, Bool, true, false, not, ◌&&◌, ◌||◌, Option, none, some, List, [], ◌∷◌, map,
  Outcome, ok, raised, key_error, value_error, ErrorKind, and_then, raise_if, if◌then◌else◌, ◌==◌,
  length, any, fstring, member, strip, truthy, split_on, starts_with, join, Dict, lookup, Double,
  le, lt, ge, div, of_nat, nought,
}

pub record Rule (F : Type 0) : Type 0 where
  pub min_value : Option F
  pub max_value : Option F
  pub read_only : Bool
  pub as_int : Bool
  pub allowed_values : Option (List String)

-- `float(s)`, `int(s)`, `str(x)` and `s.isdigit()`
pub record Numbers (F : Type 0) : Type 0 where
  pub as_float : String → Outcome F
  pub as_int : String → Outcome F
  pub text_of : F → String
  pub isdigit : String → Bool

module _ {F : Type 0} ⦃d : Double F⦄ where
  abbrev pub free : Rule F
  free = record {
    min_value = none;
    max_value = none;
    read_only = false;
    as_int = false;
    allowed_values = none;
  }

  abbrev pub between : F → F → Rule F
  between low high = record free { min_value = some low; max_value = some high }

  abbrev pub int_between : ℕ → ℕ → Rule F
  int_between low high = record (between (of_nat low) (of_nat high)) { as_int = true }

  abbrev pub one_of : List String → Rule F
  one_of values = record free { allowed_values = some values }

  -- A decimal constant: the quotient is rounded as the literal is.
  abbrev pub tenths : ℕ → F
  tenths n = div (of_nat n) (of_nat 10)

  -- `self._rules`
  unfoldable pub rules : Dict (Rule F)
  rules =
      ("position_size_max_pct", between (of_nat 1) (of_nat 30))
      ∷ ("position_size_min_pct", between (tenths 5) (of_nat 10))
      ∷ ("max_positions", int_between 1 30)
      ∷ ("risk_per_trade_pct", between (tenths 1) (of_nat 3))
      ∷ ("daily_loss_pct", between (tenths 5) (of_nat 10))
      ∷ ("stop_count", int_between 1 20)
      ∷ ("cooldown_hours", int_between 0 72)
      ∷ ("order_cancel_minutes", int_between 1 30)
      ∷ ("slippage_pct", between nought (tenths 5))
      ∷ ("liquidity_threshold", record free { min_value = some (of_nat 10) })
      ∷ ("margin_ratio", between (of_nat 1) (tenths 25))
      ∷ ("daily_base_capital", record free { read_only = true })
      ∷ ("margin_close_time", free)
      ∷ ("margin_close_priority", free)
      ∷ ("atr_period", int_between 5 30)
      ∷ ("stop_atr_mult", between (tenths 5) (of_nat 5))
      ∷ ("tp_atr_mult", between (tenths 5) (of_nat 10))
      ∷ ("trail_atr_mult", between (tenths 5) (of_nat 5))
      ∷ ("sync_mode", one_of ("auto" ∷ "manual" ∷ []))
      ∷ ("log_level", one_of ("DEBUG" ∷ "INFO" ∷ []))
      ∷ []

-- `self._strategy_overridable_keys`
abbrev pub overridable_keys : List String
overridable_keys = "stop_atr_mult" ∷ "tp_atr_mult" ∷ "trail_atr_mult" ∷ []

-- `self._values` at the start
unfoldable pub default_values : Dict String
default_values =
    ("position_size_max_pct", "10")
    ∷ ("position_size_min_pct", "2")
    ∷ ("max_positions", "10")
    ∷ ("risk_per_trade_pct", "0.5")
    ∷ ("daily_loss_pct", "2")
    ∷ ("stop_count", "5")
    ∷ ("cooldown_hours", "24")
    ∷ ("order_cancel_minutes", "3")
    ∷ ("slippage_pct", "0.05")
    ∷ ("liquidity_threshold", "50")
    ∷ ("margin_ratio", "1.5")
    ∷ ("margin_close_time", "15:20")
    ∷ ("margin_close_priority", "1,2,3,5,4")
    ∷ ("atr_period", "14")
    ∷ ("stop_atr_mult", "1.5")
    ∷ ("tp_atr_mult", "2.0")
    ∷ ("trail_atr_mult", "1.5")
    ∷ ("sync_mode", "auto")
    ∷ ("log_level", "INFO")
    ∷ []

-- The last part of a key of three parts, where strategies may override it.
abbrev pub overridden : List String → Option String
overridden (a ∷ b ∷ c ∷ []) = if member c overridable_keys then some c else none
overridden _ = none

-- `_is_strategy_override_key`, with the parameter that is overridden
unfoldable pub override_of : String → Option String
override_of key = if starts_with "strategy." key then overridden (split_on b'.' key) else none

abbrev pub has_bounds : {F : Type 0} → Option F → Option F → Bool
has_bounds none none = false
has_bounds _ _ = true

abbrev pub close_time_error : Outcome (Unit {0})
close_time_error = raised (record { kind = value_error; text = "margin_close_time must be HH:MM" })

-- `[x.strip() for x in value.split(",") if x.strip()]`
abbrev pub strips : List String → List String
strips [] = []
strips (x ∷ xs) = let rest = strips xs in if truthy (strip x) then strip x ∷ rest else rest

-- `len(set(chunks)) != len(chunks)`
abbrev pub has_duplicate : List String → Bool
has_duplicate [] = false
has_duplicate (x ∷ xs) = member x xs || has_duplicate xs

module _ {F : Type 0} ⦃d : Double F⦄ (numbers : Numbers F) where
  unfoldable pub raise_below : String → Option F → F → Outcome (Unit {0})
  raise_below key none n = ok tt
  raise_below key (some low) n =
      raise_if (lt n low) value_error (fstring (key ∷ " must be >= " ∷ numbers.text_of low ∷ []))

  unfoldable pub raise_above : String → Option F → F → Outcome (Unit {0})
  raise_above key none n = ok tt
  raise_above key (some high) n =
      raise_if (lt high n) value_error (fstring (key ∷ " must be <= " ∷ numbers.text_of high ∷ []))

  abbrev pub number : Rule F → String → Outcome F
  number rule value = if rule.as_int then numbers.as_int value else numbers.as_float value

  -- `if rule.min_value is not None or rule.max_value is not None:`
  unfoldable pub check_bounds : String → Rule F → String → Outcome (Unit {0})
  unfolding raise_below raise_above
  check_bounds key rule value =
      if has_bounds rule.min_value rule.max_value
      then and_then (number rule value)
          (λ n. and_then (raise_below key rule.min_value n) (λ _. raise_above key rule.max_value n))
      else ok tt

  unfoldable pub check_allowed : String → Option (List String) → String → Outcome (Unit {0})
  check_allowed key none value = ok tt
  check_allowed key (some values) value =
      raise_if (not (member value values)) value_error
        (fstring (key ∷ " must be one of: " ∷ join ", " values ∷ []))

  abbrev pub check_hhmm : List String → Outcome (Unit {0})
  check_hhmm (hh ∷ mm ∷ []) = and_then (numbers.as_int hh) λ h.
      if le nought h && le h (of_nat 23)
      then and_then (numbers.as_int mm)
          (λ m. if le nought m && le m (of_nat 59) then ok tt else close_time_error)
      else close_time_error
  check_hhmm _ = close_time_error

  unfoldable pub check_priority : List String → Outcome (Unit {0})
  check_priority chunks =
      and_then (raise_if (length chunks == 0) value_error "margin_close_priority must not be empty")
        λ _.
          and_then
            (raise_if (has_duplicate chunks) value_error "margin_close_priority must be unique")
            λ _.
              raise_if (any (λ x. not (numbers.isdigit x)) chunks) value_error
                "margin_close_priority must contain numeric strategy IDs"

  unfoldable pub check_special : String → String → Outcome (Unit {0})
  unfolding check_priority
  check_special key value =
      if str_eq key "margin_close_time"
      then check_hhmm (split_on b':' value)
      else (if str_eq key "margin_close_priority"
          then check_priority (strips (split_on b',' value))
          else ok tt)

  -- The bounds of the setting that a strategy overrides; the value is read as a float.
  abbrev pub check_base : String → Option (Rule F) → String → Outcome (Unit {0})
  check_base key none value = raised (record { kind = key_error; text = key })
  check_base key (some base) value =
      and_then (numbers.as_float value)
        λ n. and_then (raise_below key base.min_value n) λ _. raise_above key base.max_value n

  -- A key with a rule, one that a strategy overrides, or an unknown one.
  unfoldable pub check_rule :
      String → String → Bool → Option (Rule F) → Option String → Outcome (Unit {0})
  unfolding check_bounds check_allowed check_special
  check_rule key value allow (some rule) param =
      and_then
        (raise_if (rule.read_only && not allow) value_error (fstring (key ∷ " is read-only" ∷ [])))
        λ _.
          and_then (check_bounds key rule value)
            λ _. and_then (check_allowed key rule.allowed_values value) λ _. check_special key value
  check_rule key value allow none (some param) = check_base key (lookup param rules) value
  check_rule key value allow none none =
      raised (record { kind = key_error; text = fstring ("unknown config key: " ∷ key ∷ []) })

  unfoldable pub check : String → String → Bool → Outcome (Unit {0})
  unfolding check_rule override_of
  check key value allow = check_rule key value allow (lookup key rules) (override_of key)
