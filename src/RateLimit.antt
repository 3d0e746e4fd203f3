-- ===== src/RateLimit.antt =====
-- app/core/rate_limited_client.py: the queue of calls, orders first, and the worker that keeps an
-- interval between calls. Times are numbers of microseconds of the monotonic clock.
pub mod Fair
use haru_trade_manager.Common.{
  ℕ, zero, suc, ◌+◌, ◌-◌, String, Bool, true, false, ◌&&◌, ◌||◌, Option, none, some, List, [], ◌∷◌,
  Outcome, ok, raised, if◌then◌else◌, ltb, leb, ◌==◌, truthy,
}

-- The parts of a `Job` that order it. The calls themselves are named by their number.
pub record Job : Type 0 where
  pub priority : ℕ
  pub seq : ℕ

-- The client: the last call's time, the last number, the queue and the token.
pub record Client : Type 0 where
  pub min_interval : ℕ
  pub last_ts : ℕ
  pub seq : ℕ
  pub queue : List Job
  pub token : Option String
  pub token_expires_at : ℕ

-- `a < b` of the dataclass: by priority, then by number.
abbrev pub before : Job → Job → Bool
before a b = ltb a.priority b.priority || (a.priority == b.priority && ltb a.seq b.seq)

-- `PriorityQueue.put`: the queue is held in order.
unfoldable pub put : Job → List Job → List Job
put job [] = job ∷ []
put job (other ∷ queue) =
    let rest = put job queue in if before job other then job ∷ other ∷ queue else other ∷ rest

-- `submit`, up to the wait for the result
unfoldable pub submit : Bool → Client → Client
unfolding put
submit is_order c =
    let seq = suc c.seq in
    record c {
      seq = seq;
      queue = put (record { priority = if is_order then 0 else 1; seq = seq }) c.queue;
    }

abbrev pub taken : Client → List Job → Option Job × Client
taken c [] = (none, c)
taken c (job ∷ queue) = (some job, record c { queue = queue })

-- `await self._queue.get()`
unfoldable pub take_job : Client → Option Job × Client
take_job c = taken c c.queue

-- How long the worker sleeps before a call.
unfoldable pub wait_of : ℕ → Client → ℕ
wait_of now c =
    let elapsed = now - c.last_ts in
    if ltb elapsed c.min_interval then c.min_interval - elapsed else 0

-- The time of the last call is kept where the call gave a result; one that raised leaves it.
unfoldable pub note_call : Bool → ℕ → Client → Client
note_call returned now c = if returned then record c { last_ts = now } else c

-- `set_token`, for an `expires_in_seconds` in microseconds that is not negative
unfoldable pub set_token : String → ℕ → ℕ → Client → Client
set_token token expires_in now c = record c {
  token = some token;
  token_expires_at = now + expires_in;
}

abbrev pub has_token : Option String → Bool
has_token none = false
has_token (some token) = truthy token

-- `token_expiring`
unfoldable pub token_expiring : ℕ → ℕ → Client → Bool
token_expiring buffer now c =
    if has_token c.token then leb c.token_expires_at (now + buffer) else true

-- What comes to the client: a call that is submitted, or the worker that takes the next one.
pub data Step : Type 0 where
  submitting : Bool → Step
  taking : Step

-- The jobs that the worker gets in the course of some steps; it waits where the queue is empty.
unfoldable pub run_steps : List Step → Client → List (Option Job) × Client
unfolding submit take_job
run_steps [] c = ([], c)
run_steps (submitting is_order ∷ steps) c = run_steps steps (submit is_order c)
run_steps (taking ∷ steps) c =
    let (job, c') = take_job c in let (jobs, c'') = run_steps steps c' in (job ∷ jobs, c'')
