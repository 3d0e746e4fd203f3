-- ===== src/Config/Store.antt =====
-- `ConfigRepository.set` of app/repositories/config.py and `ConfigService.set` of
-- app/services/config_service.py: the manager's values beside the tables of settings and of their
-- history. A query and a commit may raise; a commit that raises writes nothing.
use haru_trade_manager.Common.{
  String, false, Option, none, some, List, [], ◌∷◌, ◌++◌, Act, ok, Failure, ErrorKind, sql_error,
  pure, throw, catch, ◌>>◌, Dict, lookup, insert, Double,
}
use haru_trade_manager.Config.{Numbers}
use haru_trade_manager.Config.Manager
use haru_trade_manager.Runtime.{beside}

pub record ConfigHistory : Type 0 where
  pub key : String
  pub old_value : Option String
  pub new_value : String
  pub changed_by : String

pub record Store : Type 0 where
  pub values : Dict String
  pub rows : Dict String
  pub history : List ConfigHistory

-- `db.get(Config, key)` and `db.commit()`, as far as they may fail.
pub record Database (G : Type 0) : Type 0 where
  pub get_row : String → Act G (Unit {0})
  pub commit : Act G (Unit {0})

-- What a commit makes durable: the row, and a row of the history with the old value.
unfoldable pub commit_change : String → String → String → Store → Store
commit_change key value changed_by s = record s {
  rows = insert key value s.rows;
  history =
      s.history
      ++ record {
        key = key;
        old_value = lookup key s.rows;
        new_value = value;
        changed_by = changed_by;
      }
        ∷ [];
}

module _ {F : Type 0} ⦃d : Double F⦄ (numbers : Numbers F) {G : Type 0} where
  -- `self.manager.set(key, value)`
  unfoldable pub manager_set : String → String → Act (G × Store) (Unit {0})
  manager_set key value (g, s) =
      let (r, values) = Manager.set numbers key value false s.values in
      (r, (g, record s { values = values }))

  abbrev pub keep : String → String → String → Act (G × Store) (Unit {0})
  keep key value changed_by (g, s) = (ok tt, (g, commit_change key value changed_by s))

  -- `ConfigRepository.set`
  unfoldable pub repo_set : Database G → String → String → String → Act (G × Store) (Unit {0})
  repo_set db key value changed_by =
      beside (db.get_row key)
      >> manager_set key value
      >> beside db.commit
      >> keep key value changed_by

  -- `except SQLAlchemyError: self.manager.set(key, value)`
  abbrev pub or_manager : String → String → ErrorKind → Failure → Act (G × Store) (Unit {0})
  or_manager key value sql_error exc = manager_set key value
  or_manager key value _ exc = throw exc

  abbrev pub swallow : Failure → Act (G × Store) (Unit {0})
  swallow exc = pure tt

  -- `_run_on_change`
  abbrev pub run_on_change :
      Option (String → String → String → Act G (Unit {0}))
      → String
      → String
      → String
      → Act (G × Store) (Unit {0})
  run_on_change none key value changed_by = pure tt
  run_on_change (some on_change) key value changed_by =
      catch (beside (on_change key value changed_by)) swallow

  abbrev pub write : Option (Database G) → String → String → String → Act (G × Store) (Unit {0})
  write none key value changed_by = manager_set key value
  write (some db) key value changed_by =
      catch (repo_set db key value changed_by) (λ exc. or_manager key value exc.kind exc)

  -- `ConfigService.set`
  unfoldable pub service_set :
      Option (Database G)
      → Option (String → String → String → Act G (Unit {0}))
      → String
      → String
      → String
      → Act (G × Store) (Unit {0})
  service_set db on_change key value changed_by =
      write db key value changed_by >> run_on_change on_change key value changed_by
