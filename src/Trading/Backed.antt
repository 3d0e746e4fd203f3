-- ===== src/Trading/Backed.antt =====
-- Every position rests on an order that was filled, and the order on a signal that was recorded.
use mathlib.Core.Path.{subst}
use haru_trade_manager.Common.{
  ℕ, ◌≡◌, refl, sym, ◌==◌, Option, none, some, List, [], ◌∷◌, Outcome, ok, raised, pure, ◌>>=◌,
  ◌>>◌, if◌then◌else◌, Double, Has, Has-append_left, Has-append_last, All, All-append, ap, ◌∙◌,
  false, All-weaken, All-map, Bool-cases, inl, inr, true,
}
use haru_trade_manager.Domain.{Signal, OrderResult}
use haru_trade_manager.Orders.Gateway.{raise_critical}
use haru_trade_manager.Orders.Position.{PositionRow}
use haru_trade_manager.Orders.Service.{OrderService, place_with_reconcile}
use haru_trade_manager.Runtime.{beside}
use haru_trade_manager.Trading.{
  Database, Desk, SignalRow, OrderRow, Position, add_signal, add_order, add_position, create_signal,
  create_order, open_position, set_row, time,
}
use haru_trade_manager.Trading.Execute.{
  execute_from_signal, open_if_filled, signal_row, entry_order, entry_order_row, position_row,
}
use haru_trade_manager.Trading.Monitor.{LoopA}
use haru_trade_manager.Trading.Cycle.{
  LoopAResult, pop_from, pop_one, consume, consume_signal_once, monitor_positions_once, run_once,
}
use haru_trade_manager.Trading.Rows.{
  IsAddedSignal, IsAddedOrder, IsAddedPosition, create_signal-Gives, create_order-Gives,
  open_position-Gives,
}
use haru_trade_manager.Trading.Keeps.{
  Keeps, Gives, pure-Keeps, beside-Keeps, beside-same, Gives-bind, bind-Keeps, catch-Keeps,
}
use haru_trade_manager.Trading.Steady.{monitor_positions_once-Keeps}

module _ {F : Type 0} where
  -- The order of this id was filled, and was placed for a recorded signal.
  abbrev pub IsFilled : Desk F → ℕ → Type 0
  IsFilled desk id =
      (o : OrderRow F) × Has desk.orders o
      × (o.id ≡ id)
      × (o.status ≡ "filled")
      × (s : SignalRow F) × Has desk.signals s
      × (o.signal_id ≡ some s.id)

  abbrev pub IsBackedBy : Desk F → Position F → Type 0
  IsBackedBy desk p = (id : ℕ) × (p.order_id ≡ some id) × IsFilled desk id

  abbrev pub IsBacked : Desk F → Type 0
  IsBacked desk = All (IsBackedBy desk) desk.positions

  -- More signals and orders take nothing away.
  add_signal-IsBacked :
      (row : SignalRow F) (desk : Desk F) → IsBacked desk → IsBacked (add_signal row desk)
  add_signal-IsBacked row desk =
      All-weaken (IsBackedBy desk) (IsBackedBy (add_signal row desk)) desk.positions
        λ p (id, e, (o, ho, eo, fo, s, hs, es)).
          (id, e, (o, ho, eo, fo, s, Has-append_left desk.signals (row ∷ []) s hs, es))

  add_order-IsBacked :
      (row : OrderRow F) (desk : Desk F) → IsBacked desk → IsBacked (add_order row desk)
  add_order-IsBacked row desk =
      All-weaken (IsBackedBy desk) (IsBackedBy (add_order row desk)) desk.positions
        λ p (id, e, (o, ho, eo, fo, s, hs, es)).
          (id, e, (o, Has-append_left desk.orders (row ∷ []) o ho, eo, fo, s, hs, es))

  set_row-IsBacked :
      (id : ℕ) (row : PositionRow F) (desk : Desk F)
      → IsBacked desk
      → IsBacked (record desk { positions = set_row id row desk.positions })
  set_row-IsBacked id row desk =
      All-map (IsBackedBy desk) (IsBackedBy desk)
        (λ p. if p.id == id then record p { row = row } else p) desk.positions
        λ p h. elim (Bool-cases (p.id == id)) [ inl same ↦ rw same h | inr apart ↦ rw apart h ]

  add_position-IsBacked :
      (p : Position F) (desk : Desk F)
      → IsBackedBy desk p
      → IsBacked desk
      → IsBacked (add_position p desk)
  add_position-IsBacked p desk h k = All-append (IsBackedBy desk) desk.positions (p ∷ []) k (h, tt)

module _ {F G : Type 0} ⦃d : Double F⦄ (db : Database G) (service : OrderService F G)
    (signal : Signal F) where
  -- The order that was written down stands for the placement, and its signal is recorded.
  abbrev IsWritten : OrderResult → OrderRow F → Desk F → Type 0
  IsWritten result order desk =
      Has desk.orders order
      × (order.status ≡ (if result.is_ok then "filled" else "rejected"))
      × (s : SignalRow F) × Has desk.signals s
      × (order.signal_id ≡ some s.id)

  open_if_filled-IsBacked :
      (result : OrderResult) (order : OrderRow F) (w : G × Desk F)
      → IsWritten result order w.1
      → IsBacked w.1
      → Gives IsBacked (λ _ _. Unit) (open_if_filled db service signal result order w)
  unfolding open_if_filled
  open_if_filled-IsBacked result order (g, desk) (ho, st, s, hs, es) k =
      elim (Bool-cases result.is_ok) [
        | inl filled ↦ rw filled (
            let p = position_row (db.now g) order.id signal in
            Gives-bind IsBacked (IsAddedPosition db IsBacked p desk) (λ _ _. Unit)
              (open_position db p) (λ _. pure tt) (g, desk)
              (open_position-Gives db IsBacked p (g, desk) k
                λ id.
                  add_position-IsBacked (record p { id = id }) desk
                    (order.id, refl, (order, ho, refl, (rw filled at st), s, hs, es)) k)
              (λ _ w' _ k'. (tt, k')))
        | inr refused ↦ rw refused (tt, k)
      ]

  -- The rest of the method, once the signal is recorded.
  placed-IsBacked :
      (row : SignalRow F) (desk : Desk F) (w : G × Desk F)
      → w.1 ≡ add_signal row desk
      → IsBacked w.1
      → Gives IsBacked
          (λ _ _. Unit)
          ((do
            result ← beside (place_with_reconcile service (entry_order signal))
            order ← create_order db (entry_order_row row.id result signal)
            open_if_filled db service signal result order)
            w)
  placed-IsBacked row desk w same k =
      Gives-bind IsBacked (λ _ desk'. desk' ≡ w.1) (λ _ _. Unit)
        (beside (place_with_reconcile service (entry_order signal)))
        (λ result. do
          order ← create_order db (entry_order_row row.id result signal)
          open_if_filled db service signal result order)
        w (beside-same IsBacked (place_with_reconcile service (entry_order signal)) w k)
        λ result w' same' k'.
          let fields = entry_order_row row.id result signal in
          let recorded : Has w'.1.signals row =
            subst (λ x. Has x.signals row) (sym (same' ∙ same))
              (Has-append_last desk.signals row) in
          Gives-bind IsBacked (IsAddedOrder db IsBacked fields w'.1) (λ _ _. Unit)
            (create_order db fields) (open_if_filled db service signal result) w'
            (create_order-Gives db IsBacked fields w' k' λ o. add_order-IsBacked o w'.1 k')
            λ order w'' (id, eq, added) k''.
              open_if_filled-IsBacked result order w''
                (
                  subst (λ x. Has x.orders order) (sym added) (Has-append_last w'.1.orders order),
                  ap (λ o. o.status) eq,
                  row,
                  subst (λ x. Has x.signals row) (sym added) recorded,
                  ap (λ o. o.signal_id) eq,
                )
                k''

  pub execute_from_signal-IsBacked : Keeps {G = G} IsBacked (execute_from_signal db service signal)
  unfolding execute_from_signal
  execute_from_signal-IsBacked w k =
      bind-Keeps IsBacked (beside db.connect)
        (λ _. do
          now ← time db
          row ← create_signal db (signal_row now signal)
          result ← beside (place_with_reconcile service (entry_order signal))
          order ← create_order db (entry_order_row row.id result signal)
          open_if_filled db service signal result order)
        (beside-Keeps IsBacked db.connect)
        (λ _ (g, desk) k'.
          let fields = signal_row (db.now g) signal in
          Gives-bind IsBacked (IsAddedSignal db IsBacked fields desk) (λ _ _. Unit)
            (create_signal db fields)
            (λ row. do
              result ← beside (place_with_reconcile service (entry_order signal))
              order ← create_order db (entry_order_row row.id result signal)
              open_if_filled db service signal result order)
            (g, desk)
            (create_signal-Gives db IsBacked fields (g, desk) k'
              λ row. add_signal-IsBacked row desk k')
            λ row w' (id, eq, added) k''. placed-IsBacked row desk w' added k'')
        w k

module _ {F G : Type 0} ⦃d : Double F⦄ (loop : LoopA F G) where
  consume-IsBacked : (o : Option (Signal F)) → Keeps {G = G} IsBacked (consume loop o)
  unfolding consume
  consume-IsBacked none = pure-Keeps IsBacked false
  consume-IsBacked (some signal) =
      catch-Keeps IsBacked (do execute_from_signal loop.db loop.orders signal; pure true)
        (λ exc. do beside (raise_critical loop.safety "signal_execute_failed" exc.text); pure false)
        (bind-Keeps IsBacked (execute_from_signal loop.db loop.orders signal) (λ _. pure true)
          (execute_from_signal-IsBacked loop.db loop.orders signal) (λ _. pure-Keeps IsBacked true))
        (λ exc.
          bind-Keeps IsBacked (beside (raise_critical loop.safety "signal_execute_failed" exc.text))
            (λ _. pure false)
            (beside-Keeps IsBacked (raise_critical loop.safety "signal_execute_failed" exc.text))
            (λ _. pure-Keeps IsBacked false))

  pop_from-positions :
      (queue : List (Signal F)) (desk : Desk F) → IsBacked desk → IsBacked (pop_from queue desk).1
  unfolding pop_from
  pop_from-positions [] desk k = k
  pop_from-positions (s ∷ rest) desk k = k

  consume_signal_once-IsBacked : Keeps {G = G} IsBacked (consume_signal_once loop)
  unfolding consume_signal_once pop_one
  consume_signal_once-IsBacked (g, desk) k =
      consume-IsBacked (pop_from desk.queue desk).0 (g, (pop_from desk.queue desk).1)
        (pop_from-positions desk.queue desk k)

  -- However the gateway, the database, the providers and the alarms behave, and whether or not the
  -- cycle ends by an exception: if every position rests on an order that is marked as filled and
  -- that names a recorded signal, then every position still does after one cycle of loop A.
  pub run_once-IsBacked :
      (g : G) (desk : Desk F) → IsBacked desk → IsBacked (run_once loop (g, desk)).1.1
  unfolding run_once
  run_once-IsBacked g desk k = kept (run_once loop (g, desk)) (
      bind-Keeps IsBacked (consume_signal_once loop)
        (λ executed. do
          counts ← monitor_positions_once loop
          pure (record { executed_signal = executed; counts = counts }))
        consume_signal_once-IsBacked
        (λ executed.
          bind-Keeps IsBacked (monitor_positions_once loop)
            (λ counts. pure (record { executed_signal = executed; counts = counts }))
            (monitor_positions_once-Keeps loop IsBacked add_order-IsBacked set_row-IsBacked)
            (λ counts.
              pure-Keeps IsBacked {A = LoopAResult}
                (record { executed_signal = executed; counts = counts })))
        (g, desk) k)
    where
      kept :
          (r : Outcome LoopAResult × (G × Desk F)) → Gives IsBacked (λ _ _. Unit) r → IsBacked r.1.1
      kept (ok a, w) h = h.1
      kept (raised e, w) h = h
