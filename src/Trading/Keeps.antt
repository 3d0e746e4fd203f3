-- ===== src/Trading/Keeps.antt =====
-- What every call of loop A keeps, whether it gives a value or raises.
use mathlib.Core.Path.{subst}
use haru_trade_manager.Common.{
  ◌≡◌, refl, sym, Double, Act, Outcome, ok, raised, Failure, ErrorKind, sql_error, key_error,
  value_error, other_error, pure, lift, ◌>>=◌, catch, After, After-bind, After-catch,
}
use haru_trade_manager.Runtime.{beside}
use haru_trade_manager.Trading.{Database, Desk, only_sql, if_sql, save, keep_change}

module _ {F G : Type 0} (K : Desk F → Type 0) where
  -- Whatever holds of the desk before holds of it afterwards; a value has the property Q besides,
  -- which may speak of the desk too.
  abbrev pub Gives : {A : Type 0} → (A → Desk F → Type 0) → Outcome A × (G × Desk F) → Type 0
  Gives Q = After (λ a w. Q a w.1 × K w.1) (λ _ w. K w.1)

  abbrev pub Keeps : {A : Type 0} → Act (G × Desk F) A → Type 0
  Keeps m = (w : G × Desk F) → K w.1 → Gives (λ _ _. Unit) (m w)

  pub pure-Keeps : {A : Type 0} (a : A) → Keeps (pure a)
  pure-Keeps a w k = (tt, k)

  pub Gives-weaken :
      {A : Type 0} (Q : A → Desk F → Type 0) (r : Outcome A × (G × Desk F))
      → Gives Q r
      → Gives (λ _ _. Unit) r
  Gives-weaken Q (ok a, w) h = (tt, h.1)
  Gives-weaken Q (raised e, w) h = h

  pub lift-Keeps : {A : Type 0} (r : Outcome A) → Keeps (lift r)
  lift-Keeps (ok a) w k = (tt, k)
  lift-Keeps (raised e) w k = k

  -- A call of the world outside leaves the desk as it is.
  pub beside-same :
      {A : Type 0} (m : Act G A) (w : G × Desk F)
      → K w.1
      → Gives (λ _ desk. desk ≡ w.1) (beside m w)
  beside-same {A} m (g, desk) k = go (m g)
    where
      go :
          (r : Outcome A × G) → Gives (λ _ desk'. desk' ≡ desk) (let (x, g') = r in (x, (g', desk)))
      go (ok a, g') = (refl, k)
      go (raised e, g') = k

  pub beside-Keeps : {A : Type 0} (m : Act G A) → Keeps (beside m)
  beside-Keeps {A} m (g, desk) k = go (m g)
    where
      go : (r : Outcome A × G) → Gives (λ _ _. Unit) (let (x, g') = r in (x, (g', desk)))
      go (ok a, g') = (tt, k)
      go (raised e, g') = k

  pub Gives-bind :
      {A B : Type 0} (P : A → Desk F → Type 0) (Q : B → Desk F → Type 0) (m : Act (G × Desk F) A)
      (f : A → Act (G × Desk F) B) (w : G × Desk F)
      → Gives P (m w)
      → ((a : A) (w' : G × Desk F) → P a w'.1 → K w'.1 → Gives Q (f a w'))
      → Gives Q ((m >>= f) w)
  Gives-bind P Q m f w h next =
      After-bind (λ a w'. P a w'.1 × K w'.1) (λ b w'. Q b w'.1 × K w'.1) (λ _ w'. K w'.1) m f w h
        (λ a w' k. next a w' k.0 k.1)

  pub bind-Keeps :
      {A B : Type 0} (m : Act (G × Desk F) A) (f : A → Act (G × Desk F) B)
      → Keeps m
      → ((a : A) → Keeps (f a))
      → Keeps (m >>= f)
  bind-Keeps m f h next w k =
      Gives-bind (λ _ _. Unit) (λ _ _. Unit) m f w (h w k) (λ a w' _ k'. next a w' k')

  pub catch-Keeps :
      {A : Type 0} (m : Act (G × Desk F) A) (handler : Failure → Act (G × Desk F) A)
      → Keeps m
      → ((e : Failure) → Keeps (handler e))
      → Keeps (catch m handler)
  catch-Keeps m handler h rescue w k =
      After-catch (λ _ w'. Unit × K w'.1) (λ _ w'. Unit × K w'.1) (λ _ w'. K w'.1) (λ _ w'. K w'.1)
        m handler w (h w k) (λ a w' k'. k') (λ e w' k'. rescue e w' k')

  pub only_sql-Keeps :
      {A : Type 0} (handler : Failure → Act (G × Desk F) A)
      → ((e : Failure) → Keeps (handler e))
      → (e : Failure) → Keeps (only_sql handler e)
  only_sql-Keeps handler h e = go e.kind
    where
      go : (kind : ErrorKind) → Keeps (if_sql kind (handler e) e)
      go sql_error w k = h e w k
      go key_error w k = k
      go value_error w k = k
      go other_error w k = k

  module _ ⦃d : Double F⦄ (db : Database G) {A : Type 0} (Q : A → Desk F → Type 0) (a : A)
      (change : Desk F → Desk F) where
    keep_change-Gives :
        (w : G × Desk F) → Q a (change w.1) → K (change w.1) → Gives Q (keep_change db a change w)
    unfolding keep_change
    keep_change-Gives (g, desk) q k =
        Gives-bind (λ _ desk'. desk' ≡ change desk) Q (beside db.refresh) (λ _. pure a)
          (g, change desk) (beside-same db.refresh (g, change desk) k)
          (λ _ w' same k'. (subst (Q a) (sym same) q, k'))

    -- A change of the desk that keeps K and establishes Q.
    pub save-Gives :
        (w : G × Desk F) → K w.1 → Q a (change w.1) → K (change w.1) → Gives Q (save db a change w)
    unfolding save
    save-Gives (g, desk) k q k' =
        Gives-bind (λ _ desk'. desk' ≡ desk) Q (beside db.commit) (λ _. keep_change db a change)
          (g, desk) (beside-same db.commit (g, desk) k)
          (λ _ w' same _.
            keep_change-Gives w' (subst (λ x. Q a (change x)) (sym same) q)
              (subst (λ x. K (change x)) (sym same) k'))
