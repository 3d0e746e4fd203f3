-- ===== src/Config/Sound.antt =====
-- The loading of the table of settings and the checks of their keys.
use haru_trade_manager.Common.{
  Act, ◌≡◌, refl, String, Bool, true, List, [], ◌∷◌, Outcome, ok, raised, ErrorKind, sql_error,
  key_error, value_error, other_error, catch, ◌>>=◌, Dict, insert, All-insert, Double,
}
use haru_trade_manager.Config.{Numbers, check}
use haru_trade_manager.Config.Manager.{set, skip_unknown, if_unknown, load_rows}
use haru_trade_manager.Config.Checks.{IsSoundRow, IsSound, check-IsSoundRow}

module _ {F : Type 0} ⦃d : Double F⦄ (numbers : Numbers F) where
  set-IsSound :
      (key value : String) (allow : Bool) (values : Dict String)
      → IsSound numbers values
      → IsSound numbers (set numbers key value allow values).1
  unfolding set
  set-IsSound key value allow values h = go (check numbers key value allow) refl
    where
      go :
          (r : Outcome (Unit {0}))
          → check numbers key value allow ≡ r
          → IsSound numbers
              (elim r as (λ _. Outcome (Unit {0}) × Dict String) [
                | ok _ ↦ (ok tt, insert key value values)
                | raised e ↦ (raised e, values)
              ]).1
      go (ok _) e =
          All-insert (IsSoundRow numbers) key value values
            (check-IsSoundRow numbers key value allow e) h
      go (raised e) _ = h

  -- What goes on after a row that was set, or that was skipped.
  skip-IsSound :
      (next : Act (Dict String) (Unit {0})) (r : Outcome (Unit {0}) × Dict String)
      → ((values : Dict String) → IsSound numbers values → IsSound numbers (next values).1)
      → IsSound numbers r.1
      → IsSound numbers ((catch (λ _. r) skip_unknown >>= λ _. next) r.1).1
  skip-IsSound next (ok _, v) rest k = rest v k
  skip-IsSound next (raised e, v) rest k = go e.kind
    where
      go : (kind : ErrorKind) → IsSound numbers (((λ w. if_unknown kind e w) >>= λ _. next) v).1
      go key_error = rest v k
      go sql_error = k
      go value_error = k
      go other_error = k

  -- Where the values are sound before: the rows of the table of settings, whatever
  -- they are, leave the manager with sound values, also when the loading ends by an exception. Each
  -- value of a setting with bounds, or of a strategy that overrides one, is read as a number that the
  -- bounds do not exclude; each value of a setting with a list of values is on it; the time of the
  -- close of margin positions has two whole numbers, to 23 and to 59, and its priority is a list, not
  -- empty, of digits without a repetition; and no unknown setting is held.
  pub load_rows-IsSound :
      (rows : List (String × String)) (values : Dict String)
      → IsSound numbers values
      → IsSound numbers (load_rows numbers rows values).1
  unfolding load_rows
  load_rows-IsSound [] values h = h
  load_rows-IsSound ((key, value) ∷ rows) values h =
      skip-IsSound (load_rows numbers rows) (set numbers key value true values)
        (load_rows-IsSound rows) (set-IsSound key value true values h)
