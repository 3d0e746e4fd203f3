-- ===== src/Domain.antt =====
-- app/domain/models.py: the values that pass between the loops, the orders and the gateways.
-- A datetime is the number of microseconds since a fixed origin.
use haru_trade_manager.Common.{ℕ, Bool, String, Option}

abbrev pub Datetime : Type 0
Datetime = ℕ

pub record Candle (F : Type 0) : Type 0 where
  pub open_price : F
  pub high : F
  pub low : F
  pub close : F
  pub ts : Datetime
  pub volume : F

pub record Signal (F : Type 0) : Type 0 where
  pub index : ℕ
  pub side : String
  pub ticker : String
  pub strategy_id : String
  pub timeframe : String
  pub price : Option F
  pub signal_time : Option Datetime

pub record OrderRequest (F : Type 0) : Type 0 where
  pub ticker : String
  pub side : String
  pub order_type : String
  pub qty : F
  pub price : Option F

pub record OrderResult : Type 0 where
  pub is_ok : Bool
  pub order_id : Option String
  pub error : Option String

pub record OrderStatus (F : Type 0) : Type 0 where
  pub exists : Bool
  pub status : String
  pub filled_qty : F
