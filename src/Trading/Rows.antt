-- ===== src/Trading/Rows.antt =====
-- What each operation of `OrderingRepository` leaves in the tables, when it gives a value.
use haru_trade_manager.Common.{ℕ, ◌≡◌, refl, Option, none, some, Double}
use haru_trade_manager.Orders.Position.{PositionRow, Transition, apply}
use haru_trade_manager.Trading.{
  Database, Desk, SignalRow, OrderRow, Position, add_signal, add_order, add_position, create_signal,
  create_order, open_position, find_position, apply_to, apply_transition, set_row,
}
use haru_trade_manager.Trading.Keeps.{Keeps, Gives, save-Gives}

module _ {F G : Type 0} ⦃d : Double F⦄ (db : Database G) (K : Desk F → Type 0) where
  -- The signal stands at the end of its table, and nothing else changed.
  abbrev pub IsAddedSignal : SignalRow F → Desk F → SignalRow F → Desk F → Type 0
  IsAddedSignal fields desk row desk' =
      (id : ℕ) × (row ≡ record fields { id = id }) × (desk' ≡ add_signal row desk)

  pub create_signal-Gives :
      (fields : SignalRow F) (w : G × Desk F)
      → K w.1
      → ((row : SignalRow F) → K (add_signal row w.1))
      → Gives K (IsAddedSignal fields w.1) (create_signal db fields w)
  unfolding create_signal
  create_signal-Gives fields (g, desk) k step =
      let row = record fields { id = db.new_id g } in
      save-Gives K db (IsAddedSignal fields desk) row (add_signal row) (g, desk) k
        (db.new_id g, refl, refl) (step _)

  abbrev pub IsAddedOrder : OrderRow F → Desk F → OrderRow F → Desk F → Type 0
  IsAddedOrder fields desk row desk' =
      (id : ℕ) × (row ≡ record fields { id = id }) × (desk' ≡ add_order row desk)

  pub create_order-Gives :
      (fields : OrderRow F) (w : G × Desk F)
      → K w.1
      → ((row : OrderRow F) → K (add_order row w.1))
      → Gives K (IsAddedOrder fields w.1) (create_order db fields w)
  unfolding create_order
  create_order-Gives fields (g, desk) k step =
      let row = record fields { id = db.new_id g } in
      save-Gives K db (IsAddedOrder fields desk) row (add_order row) (g, desk) k
        (db.new_id g, refl, refl) (step _)

  abbrev pub IsAddedPosition : Position F → Desk F → Position F → Desk F → Type 0
  IsAddedPosition fields desk p desk' =
      (id : ℕ) × (p ≡ record fields { id = id }) × (desk' ≡ add_position p desk)

  pub open_position-Gives :
      (fields : Position F) (w : G × Desk F)
      → K w.1
      → ((id : ℕ) → K (add_position (record fields { id = id }) w.1))
      → Gives K (IsAddedPosition fields w.1) (open_position db fields w)
  unfolding open_position
  open_position-Gives fields (g, desk) k step =
      let row = record fields { id = db.new_id g } in
      save-Gives K db (IsAddedPosition fields desk) row (add_position row) (g, desk) k
        (db.new_id g, refl, refl) (step _)

  pub apply_transition-Keeps :
      ((id : ℕ) (row : PositionRow F) (desk : Desk F)
        → K desk
        → K (record desk { positions = set_row id row desk.positions }))
      → (id : ℕ) (t : Transition F) → Keeps {G = G} K (apply_transition db id t)
  unfolding apply_transition apply_to
  apply_transition-Keeps step id t (g, desk) k = go (find_position id desk.positions)
    where
      go : (o : Option (Position F)) → Gives K (λ _ _. Unit) (apply_to db id t o (g, desk))
      go none = k
      go (some p) =
          let row = apply (db.now g) t p.row in
          save-Gives K db (λ _ _. Unit) row
            (λ desk. record desk { positions = set_row id row desk.positions }) (g, desk) k tt
            (step id row desk k)
