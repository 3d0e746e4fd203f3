-- ===== src/Config/Manager.antt =====
-- `ConfigManager.get` and `set`, over the values that the manager holds, and `load_into_manager` of
-- app/repositories/config.py.
use text.Mathlib.Text.{◌==◌ as str_eq}
use haru_trade_manager.Common.{
  ◌≡◌, refl, ap, String, Bool, true, false, Option, none, some, List, [], ◌∷◌, Act, Outcome, ok,
  raised, Failure, key_error, ErrorKind, pure, throw, ◌>>=◌, catch, fstring, Dict, lookup, insert,
  lookup-insert, lookup-insert_self, Double,
}
use haru_trade_manager.Config.{Numbers, check}

abbrev pub get_from : String → Option String → Outcome String
get_from key none =
    raised (record { kind = key_error; text = fstring ("unknown config key: " ∷ key ∷ []) })
get_from key (some value) = ok value

-- `ConfigManager.get`
unfoldable pub get : String → Dict String → Outcome String
get key values = get_from key (lookup key values)

-- `except KeyError: continue`
abbrev pub if_unknown : ErrorKind → Failure → Act (Dict String) (Unit {0})
if_unknown key_error exc = pure tt
if_unknown _ exc = throw exc

abbrev pub skip_unknown : Failure → Act (Dict String) (Unit {0})
skip_unknown exc = if_unknown exc.kind exc

module _ {F : Type 0} ⦃d : Double F⦄ (numbers : Numbers F) where
  -- `ConfigManager.set`
  unfoldable pub set : String → String → Bool → Act (Dict String) (Unit {0})
  set key value allow values = elim (check numbers key value allow) [
    | ok _ ↦ (ok tt, insert key value values)
    | raised e ↦ (raised e, values)
  ]

  -- `load_into_manager`, over the rows of the table
  unfoldable pub load_rows : List (String × String) → Act (Dict String) (Unit {0})
  unfolding set
  load_rows [] = pure tt
  load_rows ((key, value) ∷ rows) = catch (set key value true) skip_unknown >>= λ _. load_rows rows

  -- The values that `set` leaves behind, by how it ends.
  abbrev pub IsWritten : String → String → Dict String → Outcome (Unit {0}) × Dict String → Type 0
  IsWritten key value values (ok _, values') =
      (get key values' ≡ ok value)
      × ((other : String) → str_eq key other ≡ false → get other values' ≡ get other values)
  IsWritten key value values (raised e, values') = values' ≡ values

  -- A setting that is accepted is read back as it was written, and no other setting changes; one
  -- that is refused, by whichever check, changes nothing.
  pub set-IsWritten :
      (key value : String) (allow : Bool) (values : Dict String)
      → IsWritten key value values (set key value allow values)
  unfolding set get
  set-IsWritten key value allow values = go (check numbers key value allow)
    where
      go :
          (r : Outcome (Unit {0}))
          → IsWritten key value values
              (elim r [ ok _ ↦ (ok tt, insert key value values) | raised e ↦ (raised e, values) ])
      go (ok _) = (
        rw (lookup-insert_self key value values) refl,
        λ other apart. rw (lookup-insert key other value values) (rw apart refl),
      )
      go (raised e) = refl

  pub set-ok :
      (key value : String) (allow : Bool) (values : Dict String)
      → check numbers key value allow ≡ ok tt
      → set key value allow values ≡ (ok tt, insert key value values)
  unfolding set
  set-ok key value allow values = ap (λ r. elim r as (λ _. Outcome (Unit {0}) × Dict String) [
    | ok _ ↦ (ok tt, insert key value values)
    | raised e ↦ (raised e, values)
  ])

  pub set-raised :
      (key value : String) (allow : Bool) (values : Dict String) (e : Failure)
      → check numbers key value allow ≡ raised e
      → set key value allow values ≡ (raised e, values)
  unfolding set
  set-raised key value allow values e = ap (λ r. elim r as (λ _. Outcome (Unit {0}) × Dict String) [
    | ok _ ↦ (ok tt, insert key value values)
    | raised e ↦ (raised e, values)
  ])
