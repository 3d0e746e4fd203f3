-- ===== src/Backtest/Jobs.antt =====
-- app/services/backtest_jobs.py: the table of jobs, and in Backtest.Jobs.Tally the run of one.
pub mod Tally
pub mod Run
pub mod Counts
pub mod Held
pub mod Finished
pub mod Started
use text.Mathlib.Text.{◌==◌ as str_eq}
use mathlib.Core.List.{reverse}
use haru_trade_manager.Common.{
  ℕ, zero, suc, ◌+◌, ◌-◌, max, min, String, Bool, true, false, not, Option, none, some, List, [],
  ◌∷◌, ◌++◌, map, Outcome, ok, raised, and_then, Failure, Act, pure, if◌then◌else◌, length, drop,
  take, strip, truthy, filter, sort_by, Dict, lookup, erase, insert, Double, add, mul, div, lt, gt,
  of_nat, nought, sum_f, abs_f, fstring, show,
}
use haru_trade_manager.Domain.{Datetime}
use haru_trade_manager.Backtest.{Multiples}

-- The result of a run.
pub record Result (F : Type 0) : Type 0 where
  pub trade_count : ℕ
  pub wins : ℕ
  pub losses : ℕ
  pub skipped : ℕ
  pub win_rate : F
  pub total_pnl : F
  pub avg_pnl : F
  pub expectancy_r : F
  pub total_return : F
  pub total_return_pct : F
  pub sharpe_ratio : F
  pub mdd : F
  pub gross_profit : F
  pub gross_loss : F
  pub profit_factor : Option F
  pub exit_reasons : Dict ℕ
  pub multiples : Multiples F

-- What a run reads of the dict `meta`: the four numbers, whose reading as floats may raise, and the
-- text of the source.
pub record Meta (F : Type 0) : Type 0 where
  pub multiples : Outcome (Multiples F)
  pub source : String

pub record Job (F : Type 0) : Type 0 where
  pub job_id : String
  pub status : String
  pub progress : ℕ
  pub created_at : Datetime
  pub started_at : Option Datetime
  pub completed_at : Option Datetime
  pub result : Option (Result F)
  pub error : Option String
  pub meta : Meta F

-- The jobs in the order of the dict.
abbrev pub Jobs : Type 0 → Type 0
Jobs F = Dict (Job F)

module _ {F : Type 0} where
  abbrev pub created : String × Job F → ℕ
  created entry = entry.1.created_at

  abbrev pub erase_each : List (String × Job F) → Jobs F → Jobs F
  erase_each [] jobs = jobs
  erase_each (entry ∷ entries) jobs = erase_each entries (erase entry.0 jobs)

  -- `_trim_jobs`
  unfoldable pub trim_jobs : ℕ → Jobs F → Jobs F
  trim_jobs max_jobs jobs = erase_each (take (length jobs - max_jobs) (sort_by created jobs)) jobs

  abbrev pub queued : String → Datetime → Meta F → Job F
  queued job_id now meta = record {
    job_id = job_id;
    status = "queued";
    progress = 0;
    created_at = now;
    started_at = none;
    completed_at = none;
    result = none;
    error = none;
    meta = meta;
  }

  -- `start_job`, up to the task that it creates; the id comes from `uuid4`.
  unfoldable pub start_job : ℕ → String → Datetime → Meta F → Jobs F → Jobs F
  unfolding trim_jobs
  start_job max_jobs job_id now meta jobs =
      trim_jobs max_jobs (insert job_id (queued job_id now meta) jobs)

  -- `get_job`
  abbrev pub get_job : String → Jobs F → Option (Job F)
  get_job job_id jobs = lookup job_id jobs

  abbrev pub has_status : Option String → Job F → Bool
  has_status none row = true
  has_status (some status) row = if truthy (strip status) then str_eq row.status status else true

  abbrev pub rows_with : Option String → Jobs F → List (Job F)
  rows_with status jobs = filter (has_status status) (map (λ entry. entry.1) jobs)

  -- `list_jobs`: the newest first, and those of one time in the order of the dict.
  unfoldable pub list_jobs : ℕ → ℕ → Option String → Jobs F → List (Job F)
  list_jobs limit offset status jobs =
      take limit
        (drop offset (reverse (sort_by (λ row. row.created_at) (reverse (rows_with status jobs)))))

  -- `count_jobs`
  unfoldable pub count_jobs : Option String → Jobs F → ℕ
  count_jobs status jobs = length (rows_with status jobs)
