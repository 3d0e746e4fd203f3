-- ===== src/Config/Kept.antt =====
-- What a change of a setting leaves behind.
use haru_trade_manager.Common.{◌≡◌, ◌⊎◌, Failure, sql_error, Double}
use haru_trade_manager.Config.{Numbers}
use haru_trade_manager.Config.Store.{Store}

module _ {F : Type 0} ⦃d : Double F⦄ (numbers : Numbers F) {G : Type 0} where
  abbrev Refused : Failure → Store → Failure → G × Store → Type 0
  Refused e s e' w' = (e' ≡ e) × (w'.1 ≡ s)

  abbrev RefusedOrSql : Failure → Store → Failure → G × Store → Type 0
  RefusedOrSql e s e' w' = ((e'.kind ≡ sql_error) ⊎ (e' ≡ e)) × (w'.1 ≡ s)
