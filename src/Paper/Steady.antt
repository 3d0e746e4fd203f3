-- ===== src/Paper/Steady.antt =====
-- Rules for runs over a database that does not raise.
use haru_trade_manager.Common.{Act, Outcome, ok, raised, ◌>>=◌, ◌>>◌, pure, Ensures, Failure, After}
use haru_trade_manager.Runtime.{beside}
use haru_trade_manager.Paper.{Connection, read, commit_row}

-- No call of the database raises.
abbrev pub IsSteady : {G : Type 0} → Connection G → Type 0
IsSteady {G} db =
    ((g : G) → Ensures (λ _ _. Unit) (db.connect g))
    × ((g : G) → Ensures (λ _ _. Unit) (db.query g))
    × ((g : G) → Ensures (λ _ _. Unit) (db.commit g))
    × ((g : G) → Ensures (λ _ _. Unit) (db.refresh g))

module _ {G : Type 0} {M : Type 0} where
  -- What follows a call that does not raise, and does not touch the tables.
  pub beside-Ensures :
      {A : Type 0} (act : Act G (Unit {0})) (m : Act (G × M) A) (Q : A → G × M → Type 0) (g : G)
      (t : M)
      → ((h : G) → Ensures (λ _ _. Unit) (act h))
      → ((h : G) → Ensures Q (m (h, t)))
      → Ensures Q ((beside act >> m) (g, t))
  beside-Ensures {A} act m Q g t steady k = go (act g) (steady g)
    where
      go :
          (r : Outcome (Unit {0}) × G)
          → Ensures (λ _ _. Unit) r
          → Ensures Q ((beside (λ _. r) >> m) (g, t))
      go (ok _, h) _ = k h
      go (raised e, h) bad = absurd bad

  -- What follows a call that may raise, and does not touch the tables.
  pub beside-After :
      {A B : Type 0} (act : Act G A) (m : A → Act (G × M) B) (P : B → G × M → Type 0)
      (E : Failure → G × M → Type 0) (g : G) (t : M)
      → ((e : Failure) (h : G) → E e (h, t))
      → ((a : A) (h : G) → After P E (m a (h, t)))
      → After P E ((beside act >>= m) (g, t))
  beside-After {A} act m P E g t fails goes = go (act g)
    where
      go : (r : Outcome A × G) → After P E ((beside (λ _. r) >>= m) (g, t))
      go (ok a, h) = goes a h
      go (raised e, h) = fails e h

  module _ (db : Connection G) where
    pub read-After :
        {A B : Type 0} (f : M → A) (m : A → Act (G × M) B) (P : B → G × M → Type 0)
        (E : Failure → G × M → Type 0) (g : G) (t : M)
        → ((e : Failure) (h : G) → E e (h, t))
        → ((h : G) → After P E (m (f t) (h, t)))
        → After P E ((read db f >>= m) (g, t))
    read-After f m P E g t fails goes = go (db.query g)
      where
        go :
            (r : Outcome (Unit {0}) × G)
            → After P E (((beside (λ _. r) >> λ w. (ok (f w.1), w)) >>= m) (g, t))
        go (ok _, h) = goes h
        go (raised e, h) = fails e h

    pub read-Ensures :
        {A B : Type 0} (f : M → A) (m : A → Act (G × M) B) (Q : B → G × M → Type 0) (w : G × M)
        → IsSteady db
        → ((h : G) → Ensures Q (m (f w.1) (h, w.1)))
        → Ensures Q ((read db f >>= m) w)
    read-Ensures {A} {B} f m Q (g, t) steady k = go (db.query g) (steady.1 g)
      where
        go :
            (r : Outcome (Unit {0}) × G)
            → Ensures (λ _ _. Unit) r
            → Ensures Q (((beside (λ _. r) >> λ w. (ok (f w.1), w)) >>= m) (g, t))
        go (ok _, h) _ = k h
        go (raised e, h) bad = absurd bad

    -- A row that is written, where the writing itself needs only the tables.
    pub commit_row-Ensures :
        {A : Type 0} (row : M → A) (after : M → M) (Q : A → G × M → Type 0) (g : G) (t : M)
        → IsSteady db
        → ((h : G) → Q (row t) (h, after t))
        → Ensures Q (commit_row db (λ w. (ok (row w.1), (w.0, after w.1))) (g, t))
    commit_row-Ensures {A} row after Q g t steady k = go (db.commit g) (steady.2 g)
      where
        refreshed :
            (r : Outcome (Unit {0}) × G)
            → Ensures (λ _ _. Unit) r
            → Ensures Q ((beside (λ _. r) >> pure (row t)) (g, after t))
        refreshed (ok _, h) _ = k h
        refreshed (raised e, h) bad = absurd bad

        go :
            (r : Outcome (Unit {0}) × G)
            → Ensures (λ _ _. Unit) r
            → Ensures Q (
                (beside (λ _. r) >> (λ w. (ok (row w.1), (w.0, after w.1))) >>= λ x.
                beside db.refresh >> pure x)
                  (g, t))
        go (ok _, h) _ = refreshed (db.refresh h) (steady.3 h)
        go (raised e, h) bad = absurd bad
