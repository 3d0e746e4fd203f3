-- ===== src/Config/Writes.antt =====
-- What a change of a setting that the checks accept leaves behind.
use mathlib.Core.Path.{subst}
use text.Mathlib.Text.{◌==◌ as str_eq}
use haru_trade_manager.Common.{
  ◌≡◌, refl, Bool, true, ◌&&◌, Dict, String, false, Option, none, some, Act, Outcome, ok, raised,
  Failure, ErrorKind, sql_error, catch, ◌>>◌, ◌∙◌, insert, Double, After, Ensures,
}
use haru_trade_manager.Config.{Numbers, check}
use haru_trade_manager.Config.Manager
use haru_trade_manager.Config.Store.{
  Store, Database, commit_change, manager_set, keep, repo_set, or_manager, write,
}
use haru_trade_manager.Runtime.{beside}

-- A call that may fail, but only by a `SQLAlchemyError`.
abbrev pub OnlySql : {G A : Type 0} → Act G A → Type 0
OnlySql {G} {A} act = (g : G) → After (λ _ _. Unit) (λ e _. e.kind ≡ sql_error) (act g)

abbrev pub FailsBySql : {G : Type 0} → Option (Database G) → Type 0
FailsBySql none = Unit
FailsBySql {G} (some db) = ((key : String) → OnlySql (db.get_row key)) × OnlySql db.commit

abbrev goes_well : Outcome (Unit {0}) → Bool
goes_well (ok _) = true
goes_well (raised e) = false

-- There are tables, and the query of the row and the commit after it do not raise.
abbrev pub persists : {G : Type 0} → Option (Database G) → String → G → Bool
persists none key g = false
persists (some db) key g =
    let (r, g') = db.get_row key g in goes_well r && goes_well (db.commit g').0

-- The tables with the one change, or as they were.
abbrev pub IsStored : Bool → String → String → String → Store → Store → Type 0
IsStored true key value changed_by s s' =
    (s'.rows ≡ (commit_change key value changed_by s).rows)
    × (s'.history ≡ (commit_change key value changed_by s).history)
IsStored false key value changed_by s s' = (s'.rows ≡ s.rows) × (s'.history ≡ s.history)

-- The setting is read back as it was written, and the others as before.
abbrev pub IsRead : String → String → Store → Store → Type 0
IsRead key value s s' =
    (Manager.get key s'.values ≡ ok value)
    × ((other : String)
        → str_eq key other ≡ false
        → Manager.get other s'.values ≡ Manager.get other s.values)

abbrev pub IsChanged : Bool → String → String → String → Store → Store → Type 0
IsChanged stored key value changed_by s s' =
    IsRead key value s s' × IsStored stored key value changed_by s s'

-- By the checks of the manager: the change is made, or its exception comes out.
abbrev pub IsKept :
    {G : Type 0}
    → Bool
    → String
    → String
    → String
    → Store
    → Outcome (Unit {0})
    → Outcome (Unit {0}) × (G × Store)
    → Type 0
IsKept stored key value changed_by s (ok _) r =
    Ensures (λ _ w'. IsChanged stored key value changed_by s w'.1) r
IsKept stored key value changed_by s (raised e) r = (r.0 ≡ raised e) × (r.1.1 ≡ s)

-- The tables are as before, and the other settings.
abbrev IsNear : String → Store → Store → Type 0
IsNear key s s' =
    ((other : String)
      → str_eq key other ≡ false
      → Manager.get other s'.values ≡ Manager.get other s.values)
    × (s'.rows ≡ s.rows)
    × (s'.history ≡ s.history)

keep-IsChanged :
    (key value changed_by : String) (s s' : Store)
    → IsRead key value s s'
    → IsNear key s s'
    → IsChanged true key value changed_by s (commit_change key value changed_by s')
unfolding commit_change
keep-IsChanged key value changed_by s s' (same, others) (_, rows, history) =
    ((same, others), (rw rows refl, rw (rows, history) refl))

abbrev HasSet : {G : Type 0} → String → String → Store → Unit {0} → G × Store → Type 0
HasSet key value s _ w' = IsRead key value s w'.1 × IsNear key s w'.1

HasSet-IsChanged :
    {G : Type 0} (key value changed_by : String) (s : Store) (r : Outcome (Unit {0}) × (G × Store))
    → Ensures (HasSet key value s) r
    → Ensures (λ _ w'. IsChanged false key value changed_by s w'.1) r
HasSet-IsChanged key value changed_by s (ok _, w) h = (h.0, (h.1.1, h.1.2))
HasSet-IsChanged key value changed_by s (raised e, w) h = absurd h

module _ {F : Type 0} ⦃d : Double F⦄ (numbers : Numbers F) {G : Type 0} where
  -- From a store near `s`, the manager makes the change.
  manager_set-sets :
      (key value : String) (g : G) (s s' : Store)
      → check numbers key value false ≡ ok tt
      → IsNear key s s'
      → Ensures {W = G × Store}
          (λ _ w'. IsRead key value s w'.1 × IsNear key s w'.1)
          (manager_set numbers key value (g, s'))
  unfolding manager_set
  manager_set-sets key value g s s' passes (others, rows, history) =
      rw (Manager.set-ok numbers key value false s'.values passes) (
        go (
          subst (Manager.IsWritten numbers key value s'.values)
            (Manager.set-ok numbers key value false s'.values passes)
            (Manager.set-IsWritten numbers key value false s'.values)))
    where
      go :
          Manager.IsWritten numbers key value s'.values (ok tt, insert key value s'.values)
          → IsRead key value s (record s' { values = insert key value s'.values })
            × IsNear key s (record s' { values = insert key value s'.values })
      go (same, kept) = (
        (same, λ other apart. kept other apart ∙ others other apart),
        ((λ other apart. kept other apart ∙ others other apart), rows, history),
      )

  -- The manager calls nothing outside.
  manager_set-stays :
      (key value : String) (g : G) (s : Store)
      → Ensures (HasSet key value s) (manager_set numbers key value (g, s))
      → Ensures
          (λ a w'. HasSet key value s a w' × (w'.0 ≡ g))
          (manager_set numbers key value (g, s))
  unfolding manager_set
  manager_set-stays key value g s h = go (Manager.set numbers key value false s.values) h
    where
      go :
          (r : Outcome (Unit {0}) × Dict String)
          → Ensures {W = G × Store} (HasSet key value s) (r.0, (g, record s { values = r.1 }))
          → Ensures {W = G × Store}
              (λ a w'. HasSet key value s a w' × (w'.0 ≡ g))
              (r.0, (g, record s { values = r.1 }))
      go (ok _, values) k = (k, refl)
      go (raised e, values) k = absurd k

  pub manager_set-refuses :
      (key value : String) (e : Failure) (g : G) (s : Store)
      → check numbers key value false ≡ raised e
      → manager_set numbers key value (g, s) ≡ (raised e, (g, s))
  unfolding manager_set
  manager_set-refuses key value e g s fails =
      rw (Manager.set-raised numbers key value false s.values e fails) refl

  or_manager-sets :
      (key value changed_by : String) (kind : ErrorKind) (e : Failure) (s : Store) (w : G × Store)
      → check numbers key value false ≡ ok tt
      → kind ≡ sql_error
      → IsNear key s w.1
      → Ensures
          (λ _ w'. IsChanged false key value changed_by s w'.1)
          (or_manager numbers key value kind e w)
  or_manager-sets key value changed_by kind e s (g, s') passes same near = rw same (
      HasSet-IsChanged key value changed_by s (manager_set numbers key value (g, s'))
        (manager_set-sets key value g s s' passes near))

  -- With tables, the change is made, and stored just where neither call raises.
  repo_set-sets :
      (db : Database G) (key value changed_by : String) (g : G) (s : Store)
      → FailsBySql (some db)
      → check numbers key value false ≡ ok tt
      → Ensures
          (λ _ w'. IsChanged (persists (some db) key g) key value changed_by s w'.1)
          (write numbers (some db) key value changed_by (g, s))
  unfolding repo_set
  repo_set-sets db key value changed_by g s (reads, commits) passes =
      queried (db.get_row key g) (reads key g)
    where
      rescue : Failure → Act (G × Store) (Unit {0})
      rescue exc = or_manager numbers key value exc.kind exc

      -- The commit, after the manager has made the change.
      committed :
          (w : G × Store) (r : Outcome (Unit {0}) × G)
          → HasSet key value s tt w
          → After (λ _ _. Unit) (λ e _. e.kind ≡ sql_error) r
          → Ensures
              (λ _ w'. IsChanged (goes_well r.0) key value changed_by s w'.1)
              (catch
                (λ (_ : G × Store). (beside (λ _. r) >> keep numbers key value changed_by) w)
                rescue
                (g, s))
      committed w (ok _, g') h _ = keep-IsChanged key value changed_by s w.1 h.0 h.1
      committed (g₀, s') (raised e, g') h sql =
          or_manager-sets key value changed_by e.kind e s (g', s') passes sql h.1

      set_then :
          (m : Outcome (Unit {0}) × (G × Store)) (g' : G)
          → Ensures (λ a w'. HasSet key value s a w' × (w'.0 ≡ g')) m
          → Ensures
              (λ _ w'. IsChanged (goes_well (db.commit g').0) key value changed_by s w'.1)
              (catch
                (λ (_ : G × Store).
                  ((λ _. m) >> beside db.commit >> keep numbers key value changed_by) (g', s))
                rescue
                (g, s))
      set_then (ok _, (g₁, s')) g' (h, same) =
          subst
            (λ x.
              Ensures (λ _ w'. IsChanged (goes_well (db.commit x).0) key value changed_by s w'.1)
                (catch
                  (λ (_ : G × Store).
                    (beside db.commit >> keep numbers key value changed_by) (g₁, s'))
                  rescue (g, s)))
            same (committed (g₁, s') (db.commit g₁) h (commits g₁))
      set_then (raised e, w) g' h = absurd h

      queried :
          (r : Outcome (Unit {0}) × G)
          → After (λ _ _. Unit) (λ e _. e.kind ≡ sql_error) r
          → Ensures
              (λ _ w'.
                IsChanged
                  (goes_well r.0 && goes_well (db.commit r.1).0)
                  key
                  value
                  changed_by
                  s
                  w'.1)
              (catch
                (beside (λ _. r)
                  >> manager_set numbers key value
                  >> beside db.commit
                  >> keep numbers key value changed_by)
                rescue
                (g, s))
      queried (ok _, g') _ = set_then (manager_set numbers key value (g', s)) g' (
          manager_set-stays key value g' s
            (manager_set-sets key value g' s s passes (λ _ _. refl, refl, refl)))
      queried (raised e, g') sql =
          or_manager-sets key value changed_by e.kind e s (g', s) passes sql
            (λ _ _. refl, refl, refl)

  pub write-sets :
      (db : Option (Database G)) (key value changed_by : String) (g : G) (s : Store)
      → FailsBySql db
      → check numbers key value false ≡ ok tt
      → Ensures
          (λ _ w'. IsChanged (persists db key g) key value changed_by s w'.1)
          (write numbers db key value changed_by (g, s))
  write-sets none key value changed_by g s fails passes =
      HasSet-IsChanged key value changed_by s (manager_set numbers key value (g, s))
        (manager_set-sets key value g s s passes (λ _ _. refl, refl, refl))
  write-sets (some db) key value changed_by g s fails passes =
      repo_set-sets db key value changed_by g s fails passes
