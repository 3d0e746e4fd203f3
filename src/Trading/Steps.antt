-- ===== src/Trading/Steps.antt =====
-- What looking at one position adds to the counts.
use haru_trade_manager.Common.{
  suc, ◌+◌, ◌≤◌, ◌≡◌, String, arith, Act, Outcome, ok, raised, Failure, ErrorKind, sql_error,
  key_error, value_error, other_error, pure, ◌>>=◌, catch, Double, gt, nought, After, After-bind,
  After-catch, Bool-cases, inl, inr,
}
use haru_trade_manager.Domain.{OrderResult}
use haru_trade_manager.Orders.Gateway.{raise_critical}
use haru_trade_manager.Orders.Position.{PositionState, Transition}
use haru_trade_manager.Orders.Service.{place_with_reconcile}
use haru_trade_manager.Runtime.{beside}
use haru_trade_manager.Trading.{Desk, Position, only_sql, if_sql, create_order, apply_transition}
use haru_trade_manager.Trading.Monitor.{
  LoopA, Counts, fail_with, book_close, on_close_result, close_part, close_order, close_order_row,
  move_marks, marks_differ, act_on, count_closed, one_failed,
}

-- A position that was looked at is counted at most once, as closed or as failed.
abbrev pub IsStep : Counts → Counts → Type 0
IsStep c c' =
    (c'.monitored_positions ≡ c.monitored_positions)
    × (c'.closed_positions + c'.failed_close_orders
        ≤ suc (c.closed_positions + c.failed_close_orders))

module _ {W : Type 0} where
  -- The values that a run may give; nothing is said of an exception.
  abbrev pub Yields : {A : Type 0} → (A → Type 0) → Outcome A × W → Type 0
  Yields Q = After (λ a _. Q a) (λ _ _. Unit)

  anything : {A : Type 0} (r : Outcome A × W) → Yields (λ _. Unit) r
  anything (ok a, w) = tt
  anything (raised e, w) = tt

  pub then-Yields :
      {A B : Type 0} (Q : B → Type 0) (m : Act W A) (f : A → Act W B)
      → ((a : A) (w : W) → Yields Q (f a w))
      → (w : W) → Yields Q ((m >>= f) w)
  then-Yields Q m f next w =
      After-bind (λ _ _. Unit) (λ b _. Q b) (λ _ _. Unit) m f w (anything (m w))
        (λ a w' _. next a w')

  pub or-Yields_at :
      {A : Type 0} (Q : A → Type 0) (m : Act W A) (handler : Failure → Act W A) (w : W)
      → Yields Q (m w)
      → ((e : Failure) (w : W) → Yields Q (handler e w))
      → Yields Q (catch m (only_sql handler) w)
  or-Yields_at Q m handler w h rescue =
      After-catch (λ a _. Q a) (λ a _. Q a) (λ _ _. Unit) (λ _ _. Unit) m (only_sql handler) w h
        (λ a w' q. q) (λ e w' _. go e e.kind w')
    where
      go : (e : Failure) (kind : ErrorKind) (w' : W) → Yields Q (if_sql kind (handler e) e w')
      go e sql_error w' = rescue e w'
      go e key_error w' = tt
      go e value_error w' = tt
      go e other_error w' = tt

  pub or-Yields :
      {A : Type 0} (Q : A → Type 0) (m : Act W A) (handler : Failure → Act W A)
      → ((w : W) → Yields Q (m w))
      → ((e : Failure) (w : W) → Yields Q (handler e w))
      → (w : W) → Yields Q (catch m (only_sql handler) w)
  or-Yields Q m handler h rescue w = or-Yields_at Q m handler w (h w) rescue

module _ {F G : Type 0} ⦃d : Double F⦄ (loop : LoopA F G) where
  pub fail_with-IsStep :
      (c : Counts) (code message : String) (w : G × Desk F)
      → Yields (IsStep c) (fail_with loop c code message w)
  unfolding fail_with
  fail_with-IsStep c code message =
      then-Yields (IsStep c) (beside (raise_critical loop.safety code message))
        (λ _. pure (one_failed c)) (λ _ w. omega arith)

  count_closed-IsStep : (state : PositionState) (c : Counts) → IsStep c (count_closed state c)
  count_closed-IsStep state c = ground arith

  on_close_result-IsStep :
      (p : Position F) (price : F) (t : Transition F) (c : Counts) (result : OrderResult)
      (w : G × Desk F)
      → Yields (IsStep c) (on_close_result loop p price t c result w)
  unfolding on_close_result book_close
  on_close_result-IsStep p price t c result w = elim (Bool-cases result.is_ok) [
    | inl done ↦ rw done (
        or-Yields (IsStep c)
          (do
            order ← create_order loop.db (close_order_row p price t result)
            updated ← apply_transition loop.db p.id t
            pure (count_closed updated.state c))
          (λ exc. fail_with loop c "position_update_failed" exc.text)
          (then-Yields (IsStep c) (create_order loop.db (close_order_row p price t result))
            (λ order. do
              updated ← apply_transition loop.db p.id t
              pure (count_closed updated.state c))
            (λ order.
              then-Yields (IsStep c) (apply_transition loop.db p.id t)
                (λ updated. pure (count_closed updated.state c))
                (λ updated w'. count_closed-IsStep updated.state c)))
          (λ exc. fail_with-IsStep c "position_update_failed" exc.text) w)
    | inr refused ↦ rw refused (fail_with-IsStep c "close_order_failed" _ w)
  ]

  pub act_on-IsStep :
      (p : Position F) (price : F) (t : Transition F) (c : Counts) (w : G × Desk F)
      → Yields (IsStep c) (act_on loop p price t c w)
  unfolding act_on close_part move_marks
  act_on-IsStep p price t c w = elim (Bool-cases (gt t.close_qty nought)) [
    | inl part ↦ rw part (
        then-Yields (IsStep c) (beside (place_with_reconcile loop.orders (close_order p t)))
          (on_close_result loop p price t c) (on_close_result-IsStep p price t c) w)
    | inr whole ↦ rw whole (elim (Bool-cases (marks_differ p t)) [
      | inl moved ↦ rw moved (
          or-Yields (IsStep c) (do updated ← apply_transition loop.db p.id t; pure c)
            (λ exc. fail_with loop c "position_update_failed" exc.text)
            (then-Yields (IsStep c) (apply_transition loop.db p.id t) (λ updated. pure c)
              (λ updated w'. omega arith))
            (λ exc. fail_with-IsStep c "position_update_failed" exc.text) w)
      | inr still ↦ rw still (omega arith)
    ])
  ]
