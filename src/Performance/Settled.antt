-- ===== src/Performance/Settled.antt =====
-- What `detect_cash_flows` leaves to a later run.
use mathlib.Core.Path.{subst}
use haru_trade_manager.Common.{
  ◌≡◌, refl, sym, ap, ◌∙◌, suc, ◌⊎◌, inl, inr, Bool, true, false, Option, List, [], ◌∷◌, ◌++◌, ok,
  pure, ◌>>=◌, ◌>>◌, arith, any, length, Ensures, Ensures-bind, filter, page_by, Double,
}
use haru_trade_manager.Domain.{Datetime}
use haru_trade_manager.Runtime.{beside}
use haru_trade_manager.Paper.{
  Connection,
  read,
  Steady.{IsSteady, beside-Ensures, read-Ensures, commit_row-Ensures},
}
use haru_trade_manager.Performance.{
  AccountSnapshot, CashFlow, Tables, Answer, answered, list_snapshots, sum_realized_pnl,
  has_cash_flow_near, is_near, in_period, create_cash_flow,
}
use haru_trade_manager.Performance.Answered.{guarded-Ensures}
use haru_trade_manager.Performance.Curve.{whole}
use haru_trade_manager.Performance.Detect.{
  is_small, inferred_flow, flow_row, write_flow, detect_if, detect_one, detect_from, detect_all,
  detect_cash_flows,
}

any-append_left :
    {A : Type 0} (p : A → Bool) (xs ys : List A) → any p xs ≡ true → any p (xs ++ ys) ≡ true
any-append_left p [] ys h = cc h
any-append_left p (x ∷ xs) ys h = ground (arith, h, any-append_left p xs ys)

any-append_last :
    {A : Type 0} (p : A → Bool) (xs : List A) (y : A) → p y ≡ true → any p (xs ++ y ∷ []) ≡ true
any-append_last p [] y h = ground (arith, h)
any-append_last p (x ∷ xs) y h = ground (arith, any-append_last p xs y h)

module _ {F : Type 0} ⦃d : Double F⦄ {G : Type 0} (db : Connection G) (threshold : F) where
  -- The gain of the trades between two snapshots.
  abbrev gained : AccountSnapshot F → AccountSnapshot F → Tables F → F
  gained prev curr = sum_realized_pnl prev.snapshot_time curr.snapshot_time

  -- A pair of snapshots that the loop passes over.
  abbrev IsSettled : Tables F → AccountSnapshot F → AccountSnapshot F → Type 0
  IsSettled t prev curr =
      (is_small threshold prev curr (gained prev curr t) ≡ true)
      ⊎ (has_cash_flow_near curr.snapshot_time t ≡ true)

  abbrev AllSettled : Tables F → AccountSnapshot F → List (AccountSnapshot F) → Type 0
  AllSettled t prev [] = Unit
  AllSettled t prev (curr ∷ snapshots) = IsSettled t prev curr × AllSettled t curr snapshots

  -- Only flows are added.
  abbrev Extends : Tables F → Tables F → Type 0
  Extends t t' =
      (t'.snapshots ≡ t.snapshots)
      × (t'.paper ≡ t.paper)
      × ((time : Datetime) → has_cash_flow_near time t ≡ true → has_cash_flow_near time t' ≡ true)

  Extends-self : (t : Tables F) → Extends t t
  Extends-self t = (refl, refl, λ time h. h)

  Extends-trans : (t t' t'' : Tables F) → Extends t t' → Extends t' t'' → Extends t t''
  Extends-trans t t' t'' h k = (k.0 ∙ h.0, k.1 ∙ h.1, λ time near. k.2 time (h.2 time near))

  IsSettled-later :
      (t t' : Tables F) (prev curr : AccountSnapshot F)
      → Extends t t'
      → IsSettled t prev curr
      → IsSettled t' prev curr
  unfolding sum_realized_pnl
  IsSettled-later t t' prev curr h (inl small) = inl (rw (h.1) small)
  IsSettled-later t t' prev curr h (inr near) = inr (h.2 curr.snapshot_time near)

  abbrev Settles : Tables F → AccountSnapshot F → AccountSnapshot F → G × Tables F → Type 0
  Settles t prev curr w' = Extends t w'.1 × IsSettled w'.1 prev curr

  write_flow-Settles :
      (prev curr : AccountSnapshot F) (flow : F) (near : Bool) (g : G) (t : Tables F)
      → IsSteady db
      → has_cash_flow_near curr.snapshot_time t ≡ near
      → Ensures (λ _. Settles t prev curr) (write_flow db threshold curr flow near (g, t))
  unfolding write_flow create_cash_flow has_cash_flow_near
  write_flow-Settles prev curr flow true g t steady near = (Extends-self t, inr near)
  write_flow-Settles prev curr flow false g t steady far =
      let row : Tables F → CashFlow F =
        λ t. record (flow_row curr flow) { id = suc (length t.cash_flows) } in
      let after : Tables F → Tables F = λ t. record t { cash_flows = t.cash_flows ++ row t ∷ [] } in
      Ensures-bind (λ _. Settles t prev curr) (λ _. Settles t prev curr)
        (create_cash_flow db (flow_row curr flow)) (λ x. pure (x ∷ [])) (g, t)
        (commit_row-Ensures db row after (λ _. Settles t prev curr) g t steady
          (λ h. (
            (refl, refl, λ time near. any-append_left (is_near time) t.cash_flows _ near),
            inr (any-append_last (is_near curr.snapshot_time) t.cash_flows _ (ground arith)),
          )))
        (λ x w' k. k)

  detect_if-Settles :
      (prev curr : AccountSnapshot F) (flow : F) (small : Bool) (g : G) (t : Tables F)
      → IsSteady db
      → is_small threshold prev curr (gained prev curr t) ≡ small
      → Ensures (λ _. Settles t prev curr) (detect_if db threshold curr flow small (g, t))
  unfolding detect_if
  detect_if-Settles prev curr flow true g t steady small = (Extends-self t, inl small)
  detect_if-Settles prev curr flow false g t steady large =
      read-Ensures db (has_cash_flow_near curr.snapshot_time) (write_flow db threshold curr flow)
        (λ _. Settles t prev curr) (g, t) steady
        (λ h. write_flow-Settles prev curr flow _ h t steady refl)

  detect_one-Settles :
      (prev curr : AccountSnapshot F) (w : G × Tables F)
      → IsSteady db
      → Ensures (λ _. Settles w.1 prev curr) (detect_one db threshold prev curr w)
  unfolding detect_one
  detect_one-Settles prev curr w steady =
      read-Ensures db (gained prev curr)
        (λ pnl.
          detect_if db threshold curr (inferred_flow prev curr pnl)
            (is_small threshold prev curr pnl))
        (λ _. Settles w.1 prev curr) w steady
        (λ h. detect_if-Settles prev curr _ _ h w.1 steady refl)

  abbrev SettlesAll :
      Tables F → AccountSnapshot F → List (AccountSnapshot F) → G × Tables F → Type 0
  SettlesAll t prev snapshots w' = Extends t w'.1 × AllSettled w'.1 prev snapshots

  detect_from-SettlesAll :
      (prev : AccountSnapshot F) (snapshots : List (AccountSnapshot F)) (w : G × Tables F)
      → IsSteady db
      → Ensures (λ _. SettlesAll w.1 prev snapshots) (detect_from db threshold prev snapshots w)
  unfolding detect_from
  detect_from-SettlesAll prev [] w steady = (Extends-self w.1, tt)
  detect_from-SettlesAll prev (curr ∷ snapshots) w steady =
      Ensures-bind (λ _. Settles w.1 prev curr) (λ _. SettlesAll w.1 prev (curr ∷ snapshots))
        (detect_one db threshold prev curr)
        (λ found. detect_from db threshold curr snapshots >>= λ more. pure (found ++ more)) w
        (detect_one-Settles prev curr w steady)
        (λ found w₁ first.
          Ensures-bind (λ _. SettlesAll w₁.1 curr snapshots)
            (λ _. SettlesAll w.1 prev (curr ∷ snapshots)) (detect_from db threshold curr snapshots)
            (λ more. pure (found ++ more)) w₁ (detect_from-SettlesAll curr snapshots w₁ steady)
            (λ more w₂ rest. (
              Extends-trans w.1 w₁.1 w₂.1 first.0 rest.0,
              (IsSettled-later w₁.1 w₂.1 prev curr rest.0 first.1, rest.1),
            )))

  -- Nothing is found, and the tables stay as they are.
  abbrev FindsNothing : Tables F → List (CashFlow F) → G × Tables F → Type 0
  FindsNothing t found w' = (found ≡ []) × (w'.1 ≡ t)

  detect_one-idle :
      (prev curr : AccountSnapshot F) (w : G × Tables F)
      → IsSteady db
      → IsSettled w.1 prev curr
      → Ensures (FindsNothing w.1) (detect_one db threshold prev curr w)
  unfolding detect_one detect_if write_flow
  detect_one-idle prev curr w steady settled =
      read-Ensures db (gained prev curr)
        (λ pnl.
          detect_if db threshold curr (inferred_flow prev curr pnl)
            (is_small threshold prev curr pnl))
        (FindsNothing w.1) w steady (λ h. go h _ refl settled)
    where
      go :
          (h : G) (small : Bool)
          → is_small threshold prev curr (gained prev curr w.1) ≡ small
          → IsSettled w.1 prev curr
          → Ensures (FindsNothing w.1) (
              detect_if db threshold curr
                (inferred_flow prev curr (gained prev curr w.1))
                small
                (h, w.1))
      go h true e _ = (refl, refl)
      go h false e (inl small) = cc (e, small)
      go h false e (inr near) =
          read-Ensures db (has_cash_flow_near curr.snapshot_time)
            (write_flow db threshold curr (inferred_flow prev curr (gained prev curr w.1)))
            (FindsNothing w.1) (h, w.1) steady (λ h'. rw near (refl, refl))

  detect_from-idle :
      (prev : AccountSnapshot F) (snapshots : List (AccountSnapshot F)) (w : G × Tables F)
      → IsSteady db
      → AllSettled w.1 prev snapshots
      → Ensures (FindsNothing w.1) (detect_from db threshold prev snapshots w)
  unfolding detect_from
  detect_from-idle prev [] w steady h = (refl, refl)
  detect_from-idle prev (curr ∷ snapshots) w steady h =
      Ensures-bind (FindsNothing w.1) (FindsNothing w.1) (detect_one db threshold prev curr)
        (λ found. detect_from db threshold curr snapshots >>= λ more. pure (found ++ more)) w
        (detect_one-idle prev curr w steady h.0)
        (λ found w₁ first.
          Ensures-bind (FindsNothing w₁.1) (FindsNothing w.1)
            (detect_from db threshold curr snapshots) (λ more. pure (found ++ more)) w₁
            (detect_from-idle curr snapshots w₁ steady
              (subst (λ t. AllSettled t curr snapshots) (sym first.1) h.1))
            (λ more w₂ rest. (rw (first.0, rest.0) refl, rest.1 ∙ first.1)))

  abbrev AllSettledFrom : Tables F → List (AccountSnapshot F) → Type 0
  AllSettledFrom t [] = Unit
  AllSettledFrom t (first ∷ snapshots) = AllSettled t first snapshots

  detect_all-AllSettled :
      (snapshots : List (AccountSnapshot F)) (w : G × Tables F)
      → IsSteady db
      → Ensures
          (λ _ w'. Extends w.1 w'.1 × AllSettledFrom w'.1 snapshots)
          (detect_all db threshold snapshots w)
  unfolding detect_all
  detect_all-AllSettled [] w steady = (Extends-self w.1, tt)
  detect_all-AllSettled (first ∷ snapshots) w steady =
      detect_from-SettlesAll first snapshots w steady

  detect_all-idle :
      (snapshots : List (AccountSnapshot F)) (w : G × Tables F)
      → IsSteady db
      → AllSettledFrom w.1 snapshots
      → Ensures (FindsNothing w.1) (detect_all db threshold snapshots w)
  unfolding detect_all
  detect_all-idle [] w steady h = (refl, refl)
  detect_all-idle (first ∷ snapshots) w steady h = detect_from-idle first snapshots w steady h

  module _ (start end : Option Datetime) where
    abbrev listed : Tables F → List (AccountSnapshot F)
    listed = list_snapshots (whole start end) 0 5000

    abbrev IsDone : Tables F → Type 0
    IsDone t = AllSettledFrom t (listed t)

    -- Nothing is found, and the tables stay as they are.
    abbrev pub IsIdle : Tables F → Answer (List (CashFlow F)) → G × Tables F → Type 0
    IsIdle t answer w' = (answer ≡ answered []) × (w'.1 ≡ t)

    listed-same : (t t' : Tables F) → t'.snapshots ≡ t.snapshots → listed t' ≡ listed t
    unfolding list_snapshots
    listed-same t t' same =
        ap
          (λ rows.
            page_by (λ x. x.snapshot_time) 0 5000
              (filter (λ x. in_period (whole start end) x.snapshot_time x.snapshot_type) rows))
          same

    IsDone-later : (t t' : Tables F) → Extends t t' → AllSettledFrom t' (listed t) → IsDone t'
    IsDone-later t t' h k = subst (AllSettledFrom t') (sym (listed-same t t' h.0)) k

    -- A run whose loop over the listed snapshots is known.
    detect_cash_flows-Ensures :
        (P : List (CashFlow F) → G × Tables F → Type 0)
        (Q : Answer (List (CashFlow F)) → G × Tables F → Type 0) (w : G × Tables F)
        → IsSteady db
        → ((h : G) → Ensures P (detect_all db threshold (listed w.1) (h, w.1)))
        → ((found : List (CashFlow F)) (w' : G × Tables F) → P found w' → Q (answered found) w')
        → Ensures Q (detect_cash_flows db threshold start end w)
    unfolding detect_cash_flows
    detect_cash_flows-Ensures P Q w steady loop k =
        guarded-Ensures P Q (beside db.connect >> read db listed >>= detect_all db threshold) w
          (Ensures-bind (λ t w'. (t ≡ listed w.1) × (w'.1 ≡ w.1)) P
            (beside db.connect >> read db listed) (detect_all db threshold) w
            (beside-Ensures db.connect (read db listed) (λ t w'. (t ≡ listed w.1) × (w'.1 ≡ w.1))
              w.0 w.1 steady.0
              (λ h.
                beside-Ensures db.query (λ v. (ok (listed v.1), v))
                  (λ t w'. (t ≡ listed w.1) × (w'.1 ≡ w.1)) h w.1 steady.1 (λ h'. (refl, refl))))
            (λ t w' same. rw (same.0) (
              subst (λ v. Ensures P (detect_all db threshold (listed w.1) (w'.0, v))) (sym same.1)
                (loop w'.0))))
          k

    -- Where the database does not raise: a run of `detect_cash_flows` ends, and a second run over
    -- the same range finds no flow and leaves the tables as they are.
    pub detect_cash_flows-idempotent :
        (w : G × Tables F)
        → IsSteady db
        → Ensures
            (λ _ w'. Ensures (IsIdle w'.1) (detect_cash_flows db threshold start end w'))
            (detect_cash_flows db threshold start end w)
    detect_cash_flows-idempotent w steady =
        detect_cash_flows-Ensures (λ _ w'. Extends w.1 w'.1 × AllSettledFrom w'.1 (listed w.1)) _ w
          steady (λ h. detect_all-AllSettled (listed w.1) (h, w.1) steady)
          (λ found w' settled.
            detect_cash_flows-Ensures (FindsNothing w'.1) (IsIdle w'.1) w' steady
              (λ h.
                detect_all-idle (listed w'.1) (h, w'.1) steady
                  (IsDone-later w.1 w'.1 settled.0 settled.1))
              (λ more w'' idle. (ap answered idle.0, idle.1)))
