-- ===== src/Trading/Monitor.antt =====
-- `LoopARunner._monitor_positions_once` (app/loops/loop_a_runtime.py), for one position.
use mathlib.Core.Bool.{◌||◌}
use haru_trade_manager.Common.{
  ℕ, ◌+◌, String, Option, none, some, [], ◌∷◌, Act, Outcome, ok, raised, key_error, value_error,
  Bool, true, false, not, pure, lift, ◌>>=◌, ◌>>◌, catch, if◌then◌else◌, fstring, Double, gt, eq,
  nought,
}
use haru_trade_manager.Domain.{OrderRequest, OrderResult}
use haru_trade_manager.Orders.Gateway.{CriticalSafety, raise_critical}
use haru_trade_manager.Orders.Position.{PositionState, closed, Transition, decide, snapshot}
use haru_trade_manager.Orders.Service.{OrderService, place_with_reconcile}
use haru_trade_manager.Runtime.{beside}
use haru_trade_manager.Trading.{
  Database, Desk, OrderRow, Position, only_sql, create_order, apply_transition,
}

-- The price and the ATR providers.
pub record Feeds (F G : Type 0) : Type 0 where
  pub get_current_price : String → Act G F
  pub get_atr : String → String → Act G F

-- `config.get`, and `float` of a text
pub record Settings (F : Type 0) : Type 0 where
  pub get : String → Outcome String
  pub parse : String → Outcome F

pub record Counts : Type 0 where
  pub monitored_positions : ℕ
  pub closed_positions : ℕ
  pub failed_close_orders : ℕ

-- What `LoopARunner` is built from, besides the queue and the tables.
pub record LoopA (F G : Type 0) : Type 0 where
  pub db : Database G
  pub orders : OrderService F G
  pub feeds : Feeds F G
  pub safety : Option (CriticalSafety G)
  pub config : Option (Settings F)
  pub default_trail_atr_mult : F

abbrev pub is_closed : PositionState → Bool
is_closed closed = true
is_closed _ = false

abbrev pub one_failed : Counts → Counts
one_failed c = record c { failed_close_orders = c.failed_close_orders + 1 }

abbrev pub count_closed : PositionState → Counts → Counts
count_closed state c =
    if is_closed state then record c { closed_positions = c.closed_positions + 1 } else c

-- A text or None, as an f-string prints it.
abbrev or_none : Option String → String
or_none none = "None"
or_none (some s) = s

module _ {F : Type 0} ⦃d : Double F⦄ where
  -- `x != y` of floats or None
  abbrev pub differs : Option F → Option F → Bool
  differs none none = false
  differs (some x) (some y) = not (eq x y)
  differs _ _ = true

  -- `float(config.get(key))`
  abbrev number_at : Settings F → String → Outcome F
  number_at config key = elim (config.get key) [ ok s ↦ config.parse s | raised e ↦ raised e ]

  -- After `except (KeyError, ValueError, TypeError)` the common multiple is read.
  abbrev or_common : Settings F → Outcome F → Outcome F
  or_common config (ok x) = ok x
  or_common config (raised e) = elim e.kind [
    | key_error ↦ number_at config "trail_atr_mult"
    | value_error ↦ number_at config "trail_atr_mult"
    | _ ↦ raised e
  ]

  unfoldable pub resolve_trail_atr_mult : Option (Settings F) → F → String → Outcome F
  resolve_trail_atr_mult none default strategy_id = ok default
  resolve_trail_atr_mult (some config) default strategy_id =
      or_common config
        (number_at config (fstring ("strategy." ∷ strategy_id ∷ ".trail_atr_mult" ∷ [])))

  abbrev pub close_order : Position F → Transition F → OrderRequest F
  close_order p t = record {
    ticker = p.ticker;
    side = "sell";
    order_type = "market";
    qty = t.close_qty;
    price = none;
  }

  abbrev pub close_order_row : Position F → F → Transition F → OrderResult → OrderRow F
  close_order_row p price t result = record {
    id = 0;
    signal_id = none;
    external_order_id = result.order_id;
    ticker = p.ticker;
    side = "sell";
    order_type = "market";
    price = some price;
    quantity = t.close_qty;
    filled_quantity = nought;
    status = "filled";
    reason = t.reason;
  }

  abbrev close_failed_text : Position F → Transition F → OrderResult → String
  close_failed_text p t result = fstring (
      p.ticker
      ∷ " strategy="
      ∷ p.strategy_id
      ∷ " reason="
      ∷ or_none t.reason
      ∷ " error="
      ∷ or_none result.error
      ∷ [])

  abbrev pub marks_differ : Position F → Transition F → Bool
  marks_differ p t =
      differs t.new_highest p.row.highest_price
      || differs t.new_trailing_stop p.row.trailing_stop_price

module _ {F G : Type 0} ⦃d : Double F⦄ (loop : LoopA F G) where
  -- A critical event, and the position counts as failed.
  unfoldable pub fail_with : Counts → String → String → Act (G × Desk F) Counts
  unfolding raise_critical
  fail_with c code message = do
    beside (raise_critical loop.safety code message)
    pure (one_failed c)

  -- The close order is written down, and the position takes its new state.
  unfoldable pub book_close :
      Position F → F → Transition F → OrderResult → Counts → Act (G × Desk F) Counts
  unfolding create_order apply_transition
  book_close p price t result c = do
    order ← create_order loop.db (close_order_row p price t result)
    updated ← apply_transition loop.db p.id t
    pure (count_closed updated.state c)

  unfoldable pub on_close_result :
      Position F → F → Transition F → Counts → OrderResult → Act (G × Desk F) Counts
  unfolding fail_with book_close
  on_close_result p price t c result =
      if result.is_ok
      then catch (book_close p price t result c)
          (only_sql λ exc. fail_with c "position_update_failed" exc.text)
      else fail_with c "close_order_failed" (close_failed_text p t result)

  unfoldable pub close_part : Position F → F → Transition F → Counts → Act (G × Desk F) Counts
  unfolding on_close_result
  close_part p price t c =
      beside (place_with_reconcile loop.orders (close_order p t)) >>= on_close_result p price t c

  unfoldable pub move_marks : Position F → Transition F → Counts → Act (G × Desk F) Counts
  unfolding apply_transition fail_with
  move_marks p t c =
      catch (do updated ← apply_transition loop.db p.id t; pure c)
        (only_sql λ exc. fail_with c "position_update_failed" exc.text)

  unfoldable pub act_on : Position F → F → Transition F → Counts → Act (G × Desk F) Counts
  unfolding close_part move_marks
  act_on p price t c =
      if gt t.close_qty nought
      then close_part p price t c
      else (if marks_differ p t then move_marks p t c else pure c)

  -- `try: db_ctx = self.session_factory()`: whether there is a session, and the counts so far
  unfoldable pub open_session : Counts → Act (G × Desk F) (Bool × Counts)
  unfolding fail_with
  open_session c =
      catch (do beside loop.db.connect; pure (true, c))
        (only_sql λ exc. do c' ← fail_with c "positions_session_failed" exc.text; pure (false, c'))

  -- `continue`, unless there is a session
  abbrev pub go_on : Position F → F → Transition F → Bool → Counts → Act (G × Desk F) Counts
  go_on p price t is_open c = if is_open then act_on p price t c else pure c

  unfoldable pub monitor_one : Position F → Counts → Act (G × Desk F) Counts
  unfolding open_session act_on resolve_trail_atr_mult
  monitor_one p c₀ = do
    let c = record c₀ { monitored_positions = c₀.monitored_positions + 1 }
    price ← beside (loop.feeds.get_current_price p.ticker)
    atr ← beside (loop.feeds.get_atr p.ticker p.strategy_id)
    mult ← lift (resolve_trail_atr_mult loop.config loop.default_trail_atr_mult p.strategy_id)
    (is_open, c') ← open_session c
    go_on p price (decide (snapshot p.stop_price p.take_profit_price p.row) price atr mult) is_open
        c'
