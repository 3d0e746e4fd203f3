-- ===== src/Trading/Queue.antt =====
-- A signal leaves the queue once, whatever becomes of it.
use haru_trade_manager.Common.{
  ◌≡◌, refl, true, false, Option, none, some, List, ◌∷◌, Outcome, ok, raised, pure, ◌>>=◌, ◌>>◌,
  Double, Bool-cases, inl, inr,
}
use haru_trade_manager.Domain.{Signal, OrderResult}
use haru_trade_manager.Orders.Gateway.{raise_critical}
use haru_trade_manager.Orders.Service.{place_with_reconcile}
use haru_trade_manager.Runtime.{beside}
use haru_trade_manager.Trading.{
  Desk, SignalRow, OrderRow, Position, create_signal, create_order, open_position, time,
}
use haru_trade_manager.Trading.Execute.{
  execute_from_signal, open_if_filled, signal_row, entry_order, entry_order_row, position_row,
}
use haru_trade_manager.Trading.Monitor.{LoopA}
use haru_trade_manager.Trading.Cycle.{
  LoopAResult, pop_from, pop_one, consume, consume_signal_once, monitor_positions_once, run_once,
}
use haru_trade_manager.Trading.Rows.{
  IsAddedSignal, IsAddedOrder, IsAddedPosition, create_signal-Gives, create_order-Gives,
  open_position-Gives,
}
use haru_trade_manager.Trading.Keeps.{
  Keeps, Gives, Gives-weaken, pure-Keeps, beside-Keeps, bind-Keeps, catch-Keeps,
}
use haru_trade_manager.Trading.Steady.{monitor_positions_once-Keeps}

module _ {F G : Type 0} ⦃d : Double F⦄ (loop : LoopA F G) (rest : List (Signal F)) where
  abbrev Waits : Desk F → Type 0
  Waits desk = desk.queue ≡ rest

  create_signal-Waits : (row : SignalRow F) → Keeps {G = G} Waits (create_signal loop.db row)
  create_signal-Waits row w k =
      Gives-weaken Waits (IsAddedSignal loop.db Waits row w.1) (create_signal loop.db row w)
        (create_signal-Gives loop.db Waits row w k (λ _. k))

  create_order-Waits : (row : OrderRow F) → Keeps {G = G} Waits (create_order loop.db row)
  create_order-Waits row w k =
      Gives-weaken Waits (IsAddedOrder loop.db Waits row w.1) (create_order loop.db row w)
        (create_order-Gives loop.db Waits row w k (λ _. k))

  open_position-Waits : (p : Position F) → Keeps {G = G} Waits (open_position loop.db p)
  open_position-Waits p w k =
      Gives-weaken Waits (IsAddedPosition loop.db Waits p w.1) (open_position loop.db p w)
        (open_position-Gives loop.db Waits p w k (λ _. k))

  open_if_filled-Waits :
      (signal : Signal F) (result : OrderResult) (order : OrderRow F)
      → Keeps {G = G} Waits (open_if_filled loop.db loop.orders signal result order)
  unfolding open_if_filled
  open_if_filled-Waits signal result order (g, desk) k = elim (Bool-cases result.is_ok) [
    | inl filled ↦ rw filled (
        let p = position_row (loop.db.now g) order.id signal in
        bind-Keeps Waits (open_position loop.db p) (λ _. pure tt) (open_position-Waits p)
          (λ _. pure-Keeps Waits tt) (g, desk) k)
    | inr refused ↦ rw refused (tt, k)
  ]

  execute_from_signal-Waits :
      (signal : Signal F) → Keeps {G = G} Waits (execute_from_signal loop.db loop.orders signal)
  unfolding execute_from_signal
  execute_from_signal-Waits signal =
      let place = place_with_reconcile loop.orders (entry_order signal) in
      bind-Keeps Waits (beside loop.db.connect)
        (λ _. do
          now ← time loop.db
          row ← create_signal loop.db (signal_row now signal)
          result ← beside place
          order ← create_order loop.db (entry_order_row row.id result signal)
          open_if_filled loop.db loop.orders signal result order)
        (beside-Keeps Waits loop.db.connect)
        (λ _ (g, desk).
          bind-Keeps Waits (create_signal loop.db (signal_row (loop.db.now g) signal))
            (λ row. do
              result ← beside place
              order ← create_order loop.db (entry_order_row row.id result signal)
              open_if_filled loop.db loop.orders signal result order)
            (create_signal-Waits (signal_row (loop.db.now g) signal))
            (λ row.
              bind-Keeps Waits (beside place)
                (λ result. do
                  order ← create_order loop.db (entry_order_row row.id result signal)
                  open_if_filled loop.db loop.orders signal result order)
                (beside-Keeps Waits place)
                (λ result.
                  bind-Keeps Waits (create_order loop.db (entry_order_row row.id result signal))
                    (open_if_filled loop.db loop.orders signal result)
                    (create_order-Waits (entry_order_row row.id result signal))
                    (open_if_filled-Waits signal result)))
            (g, desk))

  consume-Waits : (o : Option (Signal F)) → Keeps {G = G} Waits (consume loop o)
  unfolding consume
  consume-Waits none = pure-Keeps Waits false
  consume-Waits (some signal) =
      catch-Keeps Waits (do execute_from_signal loop.db loop.orders signal; pure true)
        (λ exc. do beside (raise_critical loop.safety "signal_execute_failed" exc.text); pure false)
        (bind-Keeps Waits (execute_from_signal loop.db loop.orders signal) (λ _. pure true)
          (execute_from_signal-Waits signal) (λ _. pure-Keeps Waits true))
        (λ exc.
          bind-Keeps Waits (beside (raise_critical loop.safety "signal_execute_failed" exc.text))
            (λ _. pure false)
            (beside-Keeps Waits (raise_critical loop.safety "signal_execute_failed" exc.text))
            (λ _. pure-Keeps Waits false))

  -- One cycle of loop A takes the first signal off the queue and no other, also when the signal
  -- cannot be executed and when the cycle ends by an exception.
  pub run_once-queue :
      (g : G) (desk : Desk F) (first : Signal F)
      → desk.queue ≡ first ∷ rest
      → (run_once loop (g, desk)).1.1.queue ≡ rest
  unfolding run_once consume_signal_once pop_one pop_from
  run_once-queue g desk first e = rw e (
      kept _ (
        bind-Keeps Waits (consume loop (some first))
          (λ executed. do
            counts ← monitor_positions_once loop
            pure (record { executed_signal = executed; counts = counts }))
          (consume-Waits (some first))
          (λ executed.
            bind-Keeps Waits (monitor_positions_once loop)
              (λ counts. pure (record { executed_signal = executed; counts = counts }))
              (monitor_positions_once-Keeps loop Waits (λ _ _ k. k) (λ _ _ _ k. k))
              (λ counts.
                pure-Keeps Waits {A = LoopAResult}
                  (record { executed_signal = executed; counts = counts })))
          (g, record desk { queue = rest }) refl))
    where
      kept : (r : Outcome LoopAResult × (G × Desk F)) → Gives Waits (λ _ _. Unit) r → Waits r.1.1
      kept (ok a, w) h = h.1
      kept (raised e, w) h = h
