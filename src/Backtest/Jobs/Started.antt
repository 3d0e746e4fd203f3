-- ===== src/Backtest/Jobs/Started.antt =====
-- A job that is started, and the trimming of old ones.
use text.Mathlib.Text.{◌==◌ as str_eq}
use haru_trade_manager.Common.{
  ◌≡◌, refl, ap, ◌∙◌, ℕ, zero, suc, ◌-◌, ◌≤◌, inl, inr, String, false, none, some, List, [], ◌∷◌,
  ◌++◌, arith, length, length-append, take, All, All-take, All-sort_by, length-sort_by, sort_by,
  sort_by-append, Bool-cases, lookup, erase, insert, lookup-erase, lookup-insert_self,
}
use haru_trade_manager.Domain.{Datetime}
use haru_trade_manager.Backtest.Jobs.{
  Job, Jobs, Meta, created, erase_each, trim_jobs, queued, start_job,
}

take-append : {A : Type 0} (n : ℕ) (xs ys : List A) → n ≤ length xs → take n (xs ++ ys) ≡ take n xs
take-append zero xs ys h = refl
take-append (suc n) [] ys h = absurd (omega (arith, h))
take-append (suc n) (x ∷ xs) ys h = ap (λ rest. x ∷ rest) (take-append n xs ys (omega (arith, h)))

module _ {F : Type 0} (job_id : String) where
  abbrev IsOther : String × Job F → Type 0
  IsOther entry = str_eq entry.0 job_id ≡ false

  All-fresh : (jobs : Jobs F) → lookup job_id jobs ≡ none → All IsOther jobs
  unfolding lookup
  All-fresh [] h = tt
  All-fresh ((other, row) ∷ jobs) h = elim (Bool-cases (str_eq other job_id)) [
    | inl same ↦ cc (h, same)
    | inr apart ↦ (apart, All-fresh jobs (cc (h, apart)))
  ]

  insert-fresh :
      (row : Job F) (jobs : Jobs F)
      → All IsOther jobs
      → insert job_id row jobs ≡ jobs ++ (job_id, row) ∷ []
  unfolding insert
  insert-fresh row [] h = refl
  insert-fresh row ((other, old) ∷ jobs) h =
      rw (h.0) (ap (λ rest. (other, old) ∷ rest) (insert-fresh row jobs h.1))

  lookup-erase_each :
      (entries : List (String × Job F)) (jobs : Jobs F)
      → All IsOther entries
      → lookup job_id (erase_each entries jobs) ≡ lookup job_id jobs
  lookup-erase_each [] jobs h = refl
  lookup-erase_each (entry ∷ entries) jobs h =
      lookup-erase_each entries (erase entry.0 jobs) h.1
      ∙ rw (lookup-erase entry.0 job_id jobs, h.0) refl

  -- Where no other job is newer and at least one job may be kept, a job that is started under a new
  -- id is queued under it: the trimming takes out only others.
  pub start_job-found :
      (max_jobs : ℕ) (now : Datetime) (meta : Meta F) (jobs : Jobs F)
      → lookup job_id jobs ≡ none
      → All (λ entry. created entry ≤ now) jobs
      → 1 ≤ max_jobs
      → lookup job_id (start_job max_jobs job_id now meta jobs) ≡ some (queued job_id now meta)
  unfolding start_job trim_jobs
  start_job-found max_jobs now meta jobs fresh older room =
      let row = queued job_id now meta in
      let others = All-fresh jobs fresh in
      let count = length (insert job_id row jobs) - max_jobs in
      let few : count ≤ length (sort_by created jobs) = omega (
        arith,
        ap length (insert-fresh row jobs others),
        length-append jobs ((job_id, row) ∷ []),
        length-sort_by created jobs,
        room,
      ) in
      let gone =
        ap (λ js. take count (sort_by created js)) (insert-fresh row jobs others)
        ∙ ap (take count) (sort_by-append created (job_id, row) jobs older)
        ∙ take-append count (sort_by created jobs) ((job_id, row) ∷ []) few in
      ap (λ es. lookup job_id (erase_each es (insert job_id row jobs))) gone
      ∙ lookup-erase_each (take count (sort_by created jobs)) (insert job_id row jobs) (
          All-take created IsOther count (sort_by created jobs)
            (All-sort_by created IsOther jobs others))
      ∙ lookup-insert_self job_id row jobs
