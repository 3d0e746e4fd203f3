-- ===== src/Tests/Config.antt =====
-- Settings over whole_numbers numbers, and commands that change them.
use text.Mathlib.Text.{◌==◌ as str_eq}
use haru_trade_manager.Common.{
  ◌≡◌,
  refl,
  String,
  true,
  false,
  Option,
  none,
  some,
  [],
  ◌∷◌,
  Outcome,
  ok,
  raised,
  value_error,
  other_error,
  sql_error,
  if◌then◌else◌,
  Dict,
  lookup,
  Int.{ℤ, pos, quot_ℤ},
  split_on,
  strip,
  ℤ_double,
  insert,
  starts_with,
}
use haru_trade_manager.Config.{
  Numbers, default_values, check, check_rule, check_bounds, raise_below, raise_above, rules,
  check_allowed, check_special, override_of,
}
use haru_trade_manager.Config.Manager
use haru_trade_manager.Config.Checks.{IsSound}
use haru_trade_manager.Config.Sound.{load_rows-IsSound}
use haru_trade_manager.Config.Store.{Store, Database}

abbrev read : String → Outcome ℤ
read s =
    if str_eq s "20"
    then ok (pos 20)
    else raised (record { kind = value_error; text = "no number" })

abbrev numbers : Numbers ℤ
numbers = record { as_float = read; as_int = read; text_of = λ n. "a bound"; isdigit = λ s. true }

abbrev few : Dict String
few = ("stop_count", "5") ∷ ("log_level", "INFO") ∷ []

set_accepts :
    Manager.set numbers "stop_count" "20" false few
    ≡ (ok tt, ("stop_count", "20") ∷ ("log_level", "INFO") ∷ [])
unfolding Manager.set check check_rule check_bounds raise_below raise_above rules lookup insert
    check_allowed check_special override_of starts_with
set_accepts = refl

-- Whole parts of the decimal numbers that the defaults are.
abbrev read_whole : String → Outcome ℤ
read_whole s = read_from (
    lookup s (
      ("0", pos 0)
      ∷ ("00", pos 0)
      ∷ ("0.05", pos 0)
      ∷ ("0.5", pos 0)
      ∷ ("1.5", pos 1)
      ∷ ("2", pos 2)
      ∷ ("2.0", pos 2)
      ∷ ("3", pos 3)
      ∷ ("5", pos 5)
      ∷ ("10", pos 10)
      ∷ ("14", pos 14)
      ∷ ("15", pos 15)
      ∷ ("20", pos 20)
      ∷ ("24", pos 24)
      ∷ ("50", pos 50)
      ∷ []))
  where
    read_from : Option ℤ → Outcome ℤ
    read_from none = raised (record { kind = value_error; text = "no number" })
    read_from (some n) = ok n

abbrev whole_numbers : Numbers ℤ
whole_numbers = record {
  as_float = read_whole;
  as_int = read_whole;
  text_of = λ n. "a bound";
  isdigit = λ s. true;
}

-- The defaults are sound, by their whole parts.
default_values-IsSound : IsSound whole_numbers default_values
unfolding default_values rules lookup override_of starts_with quot_ℤ split_on strip
default_values-IsSound = (
  ((pos 10, refl, refl, refl), tt, tt),
  (
    ((pos 2, refl, refl, refl), tt, tt),
    (
      ((pos 10, refl, refl, refl), tt, tt),
      (
        ((pos 0, refl, refl, refl), tt, tt),
        (
          ((pos 2, refl, refl, refl), tt, tt),
          (
            ((pos 5, refl, refl, refl), tt, tt),
            (
              ((pos 24, refl, refl, refl), tt, tt),
              (
                ((pos 3, refl, refl, refl), tt, tt),
                (
                  ((pos 0, refl, refl, refl), tt, tt),
                  (
                    ((pos 50, refl, refl, tt), tt, tt),
                    (
                      ((pos 1, refl, refl, refl), tt, tt),
                      (
                        (tt, tt, ((pos 15, refl, refl, refl), (pos 20, refl, refl, refl))),
                        (
                          (tt, tt, (refl, refl, (refl, (refl, (refl, (refl, (refl, tt))))))),
                          (
                            ((pos 14, refl, refl, refl), tt, tt),
                            (
                              ((pos 1, refl, refl, refl), tt, tt),
                              (
                                ((pos 2, refl, refl, refl), tt, tt),
                                (
                                  ((pos 1, refl, refl, refl), tt, tt),
                                  ((tt, refl, tt), ((tt, refl, tt), tt)),
                                ),
                              ),
                            ),
                          ),
                        ),
                      ),
                    ),
                  ),
                ),
              ),
            ),
          ),
        ),
      ),
    ),
  ),
)

load_rows-IsSound_example :
    IsSound whole_numbers
      (Manager.load_rows whole_numbers
        (("stop_count", "20") ∷ ("margin_close_time", "15:10") ∷ ("no_such_key", "1") ∷ [])
        default_values).1
load_rows-IsSound_example =
    load_rows-IsSound whole_numbers
      (("stop_count", "20") ∷ ("margin_close_time", "15:10") ∷ ("no_such_key", "1") ∷ [])
      default_values default_values-IsSound

-- The world is the number of calls; the commit fails.
abbrev failing : Database ℤ
failing = record {
  get_row = λ key g. (ok tt, g);
  commit = λ g. (raised (record { kind = sql_error; text = "database is locked" }), g);
}

abbrev stored : Store
stored = record { values = few; rows = []; history = [] }
