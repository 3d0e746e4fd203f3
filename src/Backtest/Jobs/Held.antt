-- ===== src/Backtest/Jobs/Held.antt =====
-- A job while it runs, and the changes of its row.
use mathlib.Core.Path.{subst}
use haru_trade_manager.Common.{
  ◌≡◌, refl, sym, ℕ, ◌+◌, ◌≤◌, ◌⊎◌, inl, inr, String, Bool, true, Option, none, some, Outcome, ok,
  raised, Failure, pure, ◌>>=◌, ◌>>◌, if_then_else-P, lookup, lookup-insert_self, After, After-bind,
  After-weaken, Double,
}
use haru_trade_manager.Domain.{Datetime}
use haru_trade_manager.Runtime.{AlertSink, beside}
use haru_trade_manager.Backtest.Jobs.{Job, Jobs, Result}
use haru_trade_manager.Backtest.Jobs.Counts.{total_of}
use haru_trade_manager.Backtest.Jobs.Run.{
  Outside, change_found, changed, change_row, send, notify, completed, completed_text, complete,
  failed, failed_text, fail, should_notify,
}

module _ {F G : Type 0} ⦃d : Double F⦄ (o : Outside F G) (job_id : String) (trims : Bool)
    (n : ℕ) where
  -- Other tasks leave this job as it is, or take it out where `trims` is true.
  abbrev pub IsRespectful : Type 0
  IsRespectful =
      (w : G × Jobs F)
      → (lookup job_id (o.others w).1 ≡ lookup job_id w.1)
        ⊎ ((lookup job_id (o.others w).1 ≡ none) × (trims ≡ true))

  -- The job is still there, unless it was taken out.
  abbrev pub IsHeld : Option (Job F) → Type 0
  IsHeld none = trims ≡ true
  IsHeld (some row) = Unit

  -- A result of `n` signals.
  abbrev pub IsResult : Result F → Type 0
  IsResult r =
      (r.trade_count + r.skipped ≡ n)
      × (r.wins + r.losses ≤ r.trade_count)
      × (total_of r.exit_reasons ≡ r.trade_count)

  abbrev pub IsCompleted : Job F → Type 0
  IsCompleted row =
      (row.status ≡ "completed")
      × (row.progress ≡ 100)
      × ((r : Result F) × (row.result ≡ some r) × IsResult r)

  abbrev pub IsFailed : Job F → Type 0
  IsFailed row = (row.status ≡ "failed") × ((text : String) × (row.error ≡ some text))

  abbrev pub IsFinished : Option (Job F) → Type 0
  IsFinished none = trims ≡ true
  IsFinished (some row) = IsCompleted row ⊎ IsFailed row

  abbrev pub Held : G × Jobs F → Type 0
  Held w = IsHeld (lookup job_id w.1)

  abbrev pub Finished : G × Jobs F → Type 0
  Finished w = IsFinished (lookup job_id w.1)

  pub Finished-Held : (row : Option (Job F)) → IsFinished row → IsHeld row
  Finished-Held none h = h
  Finished-Held (some row) h = tt

  pub others-Held : (w : G × Jobs F) → IsRespectful → Held w → Held (o.others w)
  others-Held w respectful h = go (respectful w)
    where
      go :
          (lookup job_id (o.others w).1 ≡ lookup job_id w.1)
            ⊎ ((lookup job_id (o.others w).1 ≡ none) × (trims ≡ true))
          → Held (o.others w)
      go (inl same) = subst IsHeld (sym same) h
      go (inr gone) = subst IsHeld (sym gone.0) gone.1

  lookup-change_found :
      (f : Job F → Job F) (found : Option (Job F)) (jobs : Jobs F)
      → lookup job_id jobs ≡ found
      → lookup job_id (change_found job_id f found jobs) ≡ changed f found
  lookup-change_found f none jobs e = e
  lookup-change_found f (some row) jobs e = lookup-insert_self job_id (f row) jobs

  -- The row that a change answers is the one in the table, if the job is still there.
  pub change_row-Held :
      (f : Datetime → Job F → Job F) (Q : Option (Job F) → Type 0) (w : G × Jobs F)
      → IsRespectful
      → Held w
      → (trims ≡ true → Q none)
      → ((now : Datetime) (row : Job F) → Q (some (f now row)))
      → After (λ r w'. (lookup job_id w'.1 ≡ r) × Q r) (λ _ _. ⊥) (change_row o job_id f w)
  unfolding change_row
  change_row-Held f Q w respectful h q_none q_some = (
    lookup-change_found (f (o.now (o.others w).0)) _ (o.others w).1 refl,
    go (lookup job_id (o.others w).1) (others-Held w respectful h),
  )
    where
      go : (found : Option (Job F)) → IsHeld found → Q (changed (f (o.now (o.others w).0)) found)
      go none trimmed = q_none trimmed
      go (some row) _ = q_some (o.now (o.others w).0) row

  abbrev Same : Jobs F → Outcome (Unit {0}) × (G × Jobs F) → Type 0
  Same jobs = After (λ _ w. w.1 ≡ jobs) (λ _ w. w.1 ≡ jobs)

  -- A message does not touch the jobs.
  notify-Same :
      (text : String) (row : Option (Job F)) (w : G × Jobs F)
      → Same w.1 (notify o job_id text row w)
  unfolding notify
  notify-Same text none w = refl
  notify-Same text (some row) (g, jobs) =
      if_then_else-P (λ act. Same jobs (act (g, jobs))) (should_notify o job_id row)
        (send o job_id o.alert_sink text) (pure tt) (λ _. sent o.alert_sink) (λ _. refl)
    where
      went : (r : Outcome Bool × G) → Same jobs ((beside (λ _. r) >> pure tt) (g, jobs))
      went (ok _, g') = refl
      went (raised e, g') = refl

      sent : (sink : Option (AlertSink G)) → Same jobs (send o job_id sink text (g, jobs))
      sent none = refl
      sent (some sink) = went (sink.send_message text g)

  -- A last change with its message.
  last_change :
      (f : Datetime → Job F → Job F) (text : String) (w : G × Jobs F)
      → IsRespectful
      → Held w
      → ((now : Datetime) (row : Job F) → IsFinished (some (f now row)))
      → After (λ _. Finished) (λ _. Finished) ((change_row o job_id f >>= notify o job_id text) w)
  last_change f text w respectful h good =
      After-bind (λ r w'. (lookup job_id w'.1 ≡ r) × IsFinished r) (λ _. Finished) (λ _. Finished)
        (change_row o job_id f) (notify o job_id text) w
        (After-weaken _ _ _ _ (change_row o job_id f w) (λ r w' k. k) (λ e w' k. absurd k)
          (change_row-Held f IsFinished w respectful h (λ trimmed. trimmed) good))
        (λ r w' k.
          let done : Finished w' = subst IsFinished (sym k.0) k.1 in
          After-weaken _ _ _ _ (notify o job_id text r w')
            (λ _ w'' same. subst (λ jobs. IsFinished (lookup job_id jobs)) (sym same) done)
            (λ _ w'' same. subst (λ jobs. IsFinished (lookup job_id jobs)) (sym same) done)
            (notify-Same text r w'))

  pub complete-Finished :
      (result : Result F) (w : G × Jobs F)
      → IsRespectful
      → Held w
      → IsResult result
      → After (λ _. Finished) (λ _. Finished) (complete o job_id result w)
  unfolding complete
  complete-Finished result w respectful h good =
      last_change (completed o job_id result) (completed_text o job_id result) w respectful h
        (λ now row. inl (refl, refl, (result, refl, good)))

  pub fail-Finished :
      (exc : Failure) (w : G × Jobs F)
      → IsRespectful
      → Held w
      → After (λ _. Finished) (λ _. Finished) (fail o job_id exc w)
  unfolding fail
  fail-Finished exc w respectful h =
      last_change (failed o job_id exc) (failed_text o job_id exc) w respectful h
        (λ now row. inr (refl, (exc.text, refl)))

  -- A change that a run makes on its way.
  pub change_row-on_the_way :
      (f : Datetime → Job F → Job F) (w : G × Jobs F)
      → IsRespectful
      → Held w
      → After (λ _. Held) (λ _. Held) (change_row o job_id f w)
  change_row-on_the_way f w respectful h =
      After-weaken _ _ _ _ (change_row o job_id f w) (λ r w' k. subst IsHeld (sym k.0) k.1)
        (λ e w' k. absurd k)
        (change_row-Held f IsHeld w respectful h (λ trimmed. trimmed) (λ now row. tt))
