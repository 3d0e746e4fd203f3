-- ===== src/Trading/Steady.antt =====
-- What monitoring keeps: anything that one more order and a changed position row leave alone.
use haru_trade_manager.Common.{
  Bool-cases, inl, inr, ℕ, ◌+◌, String, Bool, true, false, List, [], ◌∷◌, ok, pure, lift, ◌>>=◌,
  ◌>>◌, Double, gt, nought,
}
use haru_trade_manager.Orders.Gateway.{raise_critical}
use haru_trade_manager.Orders.Position.{PositionRow, Transition, decide, snapshot}
use haru_trade_manager.Orders.Service.{place_with_reconcile}
use haru_trade_manager.Domain.{OrderResult}
use haru_trade_manager.Runtime.{beside}
use haru_trade_manager.Trading.{
  Desk, OrderRow, Position, add_order, only_sql, create_order, apply_transition, set_row,
}
use haru_trade_manager.Trading.Rows.{IsAddedOrder, create_order-Gives, apply_transition-Keeps}
use haru_trade_manager.Trading.Keeps.{
  Keeps, Gives-weaken, pure-Keeps, lift-Keeps, beside-Keeps, bind-Keeps, catch-Keeps,
  only_sql-Keeps,
}
use haru_trade_manager.Trading.Monitor.{
  LoopA, Counts, fail_with, book_close, on_close_result, close_part, close_order, close_order_row,
  move_marks, marks_differ, act_on, open_session, go_on, monitor_one, count_closed,
  resolve_trail_atr_mult, one_failed,
}
use haru_trade_manager.Trading.Cycle.{
  list_open_positions, open_among, monitor_all, query_positions, monitor_positions_once, no_counts,
}

module _ {F G : Type 0} ⦃d : Double F⦄ (loop : LoopA F G) (K : Desk F → Type 0)
    (orders_keep : (row : OrderRow F) (desk : Desk F) → K desk → K (add_order row desk))
    (rows_keep : (id : ℕ) (row : PositionRow F) (desk : Desk F)
      → K desk
      → K (record desk { positions = set_row id row desk.positions })) where
  fail_with-Keeps :
      (c : Counts) (code message : String) → Keeps {G = G} K (fail_with loop c code message)
  unfolding fail_with
  fail_with-Keeps c code message =
      bind-Keeps K (beside (raise_critical loop.safety code message)) (λ _. pure (one_failed c))
        (beside-Keeps K (raise_critical loop.safety code message))
        (λ _. pure-Keeps K (one_failed c))

  create_order-Keeps : (row : OrderRow F) → Keeps {G = G} K (create_order loop.db row)
  create_order-Keeps row w k =
      Gives-weaken K (IsAddedOrder loop.db K row w.1) (create_order loop.db row w)
        (create_order-Gives loop.db K row w k (λ r. orders_keep r w.1 k))

  move-Keeps : (id : ℕ) (t : Transition F) → Keeps {G = G} K (apply_transition loop.db id t)
  move-Keeps = apply_transition-Keeps loop.db K rows_keep

  book_close-Keeps :
      (p : Position F) (price : F) (t : Transition F) (result : OrderResult) (c : Counts)
      → Keeps {G = G} K (book_close loop p price t result c)
  unfolding book_close
  book_close-Keeps p price t result c =
      bind-Keeps K (create_order loop.db (close_order_row p price t result))
        (λ order. do updated ← apply_transition loop.db p.id t; pure (count_closed updated.state c))
        (create_order-Keeps (close_order_row p price t result))
        (λ order.
          bind-Keeps K (apply_transition loop.db p.id t)
            (λ updated. pure (count_closed updated.state c)) (move-Keeps p.id t)
            (λ updated. pure-Keeps K (count_closed updated.state c)))

  on_close_result-Keeps :
      (p : Position F) (price : F) (t : Transition F) (c : Counts) (result : OrderResult)
      → Keeps {G = G} K (on_close_result loop p price t c result)
  unfolding on_close_result
  on_close_result-Keeps p price t c result w k = elim (Bool-cases result.is_ok) [
    | inl done ↦ rw done (
        catch-Keeps K (book_close loop p price t result c)
          (only_sql λ exc. fail_with loop c "position_update_failed" exc.text)
          (book_close-Keeps p price t result c)
          (only_sql-Keeps K (λ exc. fail_with loop c "position_update_failed" exc.text)
            (λ exc. fail_with-Keeps c "position_update_failed" exc.text))
          w k)
    | inr refused ↦ rw refused (fail_with-Keeps c "close_order_failed" _ w k)
  ]

  move_marks-Keeps :
      (p : Position F) (t : Transition F) (c : Counts) → Keeps {G = G} K (move_marks loop p t c)
  unfolding move_marks
  move_marks-Keeps p t c =
      catch-Keeps K (do updated ← apply_transition loop.db p.id t; pure c)
        (only_sql λ exc. fail_with loop c "position_update_failed" exc.text)
        (bind-Keeps K (apply_transition loop.db p.id t) (λ updated. pure c) (move-Keeps p.id t)
          (λ updated. pure-Keeps K c))
        (only_sql-Keeps K (λ exc. fail_with loop c "position_update_failed" exc.text)
          (λ exc. fail_with-Keeps c "position_update_failed" exc.text))

  act_on-Keeps :
      (p : Position F) (price : F) (t : Transition F) (c : Counts)
      → Keeps {G = G} K (act_on loop p price t c)
  unfolding act_on close_part
  act_on-Keeps p price t c w k = elim (Bool-cases (gt t.close_qty nought)) [
    | inl part ↦ rw part (
        bind-Keeps K (beside (place_with_reconcile loop.orders (close_order p t)))
          (on_close_result loop p price t c)
          (beside-Keeps K (place_with_reconcile loop.orders (close_order p t)))
          (on_close_result-Keeps p price t c) w k)
    | inr whole ↦ rw whole (elim (Bool-cases (marks_differ p t)) [
      | inl moved ↦ rw moved (move_marks-Keeps p t c w k)
      | inr still ↦ rw still (pure-Keeps K c w k)
    ])
  ]

  open_session-Keeps : (c : Counts) → Keeps {G = G} K (open_session loop c)
  unfolding open_session
  open_session-Keeps c =
      catch-Keeps K (do beside loop.db.connect; pure (true, c))
        (only_sql
          λ exc. do c' ← fail_with loop c "positions_session_failed" exc.text; pure (false, c'))
        (bind-Keeps K (beside loop.db.connect) (λ _. pure (true, c))
          (beside-Keeps K loop.db.connect) (λ _. pure-Keeps K {A = Bool × Counts} (true, c)))
        (only_sql-Keeps K
          (λ exc. do c' ← fail_with loop c "positions_session_failed" exc.text; pure (false, c'))
          (λ exc.
            bind-Keeps K (fail_with loop c "positions_session_failed" exc.text)
              (λ c'. pure (false, c')) (fail_with-Keeps c "positions_session_failed" exc.text)
              (λ c'. pure-Keeps K {A = Bool × Counts} (false, c'))))

  go_on-Keeps :
      (p : Position F) (price : F) (t : Transition F) (is_open : Bool) (c : Counts)
      → Keeps {G = G} K (go_on loop p price t is_open c)
  go_on-Keeps p price t true c = act_on-Keeps p price t c
  go_on-Keeps p price t false c = pure-Keeps K c

  monitor_one-Keeps : (p : Position F) (c : Counts) → Keeps {G = G} K (monitor_one loop p c)
  unfolding monitor_one
  monitor_one-Keeps p c₀ w k =
      let c = record c₀ { monitored_positions = c₀.monitored_positions + 1 } in
      let mult_of = resolve_trail_atr_mult loop.config loop.default_trail_atr_mult p.strategy_id in
      let decided = decide (snapshot p.stop_price p.take_profit_price p.row) in
      bind-Keeps K (beside (loop.feeds.get_current_price p.ticker))
        (λ price. do
          atr ← beside (loop.feeds.get_atr p.ticker p.strategy_id)
          mult ← lift mult_of
          (is_open, c') ← open_session loop c
          go_on loop p price (decided price atr mult) is_open c')
        (beside-Keeps K (loop.feeds.get_current_price p.ticker))
        (λ price.
          bind-Keeps K (beside (loop.feeds.get_atr p.ticker p.strategy_id))
            (λ atr. do
              mult ← lift mult_of
              (is_open, c') ← open_session loop c
              go_on loop p price (decided price atr mult) is_open c')
            (beside-Keeps K (loop.feeds.get_atr p.ticker p.strategy_id))
            (λ atr.
              bind-Keeps K (lift mult_of)
                (λ mult. do
                  (is_open, c') ← open_session loop c
                  go_on loop p price (decided price atr mult) is_open c')
                (lift-Keeps K mult_of)
                (λ mult.
                  bind-Keeps K (open_session loop c)
                    (λ (is_open, c'). go_on loop p price (decided price atr mult) is_open c')
                    (open_session-Keeps c)
                    (λ (is_open, c'). go_on-Keeps p price (decided price atr mult) is_open c'))))
        w k

  monitor_all-Keeps :
      (rows : List (Position F)) (c : Counts) → Keeps {G = G} K (monitor_all loop rows c)
  unfolding monitor_all
  monitor_all-Keeps [] c = pure-Keeps K c
  monitor_all-Keeps (p ∷ rows) c =
      bind-Keeps K (monitor_one loop p c) (monitor_all loop rows) (monitor_one-Keeps p c)
        (monitor_all-Keeps rows)

  query_positions-Keeps : Keeps {G = G} K (query_positions loop)
  unfolding query_positions list_open_positions
  query_positions-Keeps =
      catch-Keeps K (do beside loop.db.connect; list_open_positions loop)
        (only_sql
          λ exc. do beside (raise_critical loop.safety "positions_query_failed" exc.text); pure [])
        (bind-Keeps K (beside loop.db.connect) (λ _. list_open_positions loop)
          (beside-Keeps K loop.db.connect)
          (λ _.
            bind-Keeps K (beside loop.db.select)
              (λ _ (g, desk). (ok (open_among desk.positions), (g, desk)))
              (beside-Keeps K loop.db.select) (λ _ w k. (tt, k))))
        (only_sql-Keeps K
          (λ exc. do beside (raise_critical loop.safety "positions_query_failed" exc.text); pure [])
          (λ exc.
            bind-Keeps K (beside (raise_critical loop.safety "positions_query_failed" exc.text))
              (λ _. pure [])
              (beside-Keeps K (raise_critical loop.safety "positions_query_failed" exc.text))
              (λ _. pure-Keeps K {A = List (Position F)} [])))

  -- A round of monitoring keeps it, however the calls outside end.
  pub monitor_positions_once-Keeps : Keeps {G = G} K (monitor_positions_once loop)
  unfolding monitor_positions_once
  monitor_positions_once-Keeps =
      bind-Keeps K (query_positions loop) (λ rows. monitor_all loop rows no_counts)
        query_positions-Keeps (λ rows. monitor_all-Keeps rows no_counts)
