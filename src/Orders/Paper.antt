-- ===== src/Orders/Paper.antt =====
-- app/orders/paper_gateway.py: a gateway inside the process, whose state is its sequence number.
use haru_trade_manager.Common.{
  ℕ, ◌+◌, ◌≡◌, refl, Option, none, some, true, ok, [], ◌∷◌, fstring, show, Double, of_nat,
}
use haru_trade_manager.Domain.{OrderRequest, OrderResult}
use haru_trade_manager.Orders.Gateway.{OrderGateway, CriticalSafety}
use haru_trade_manager.Orders.Service.{place_with_reconcile}

abbrev pub paper_order : ℕ → OrderResult
paper_order seq = record {
  is_ok = true;
  order_id = some (fstring ("PAPER-" ∷ show seq ∷ []));
  error = none;
}

module _ {F : Type 0} ⦃d : Double F⦄ where
  unfoldable pub paper_gateway : OrderGateway F ℕ
  paper_gateway = record {
    place_order = λ req seq. (ok (paper_order (seq + 1)), seq + 1);
    get_order_status =
        λ id seq. (ok (record { exists = true; status = "filled"; filled_qty = of_nat 1 }), seq);
  }

  -- On paper every order is a success at once: one placement, no status check, no alarm.
  pub paper_places_once :
      (safety : Option (CriticalSafety ℕ)) (req : OrderRequest F) (seq : ℕ)
      → place_with_reconcile (record { gateway = paper_gateway; safety = safety }) req seq
        ≡ (ok (paper_order (seq + 1)), seq + 1)
  unfolding place_with_reconcile paper_gateway
  paper_places_once safety req seq = refl
