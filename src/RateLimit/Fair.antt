-- ===== src/RateLimit/Fair.antt =====
-- The queue of the client as two queues, of orders and of other calls, each first in, first out.
use haru_trade_manager.Common.{
  ◌≡◌, refl, ◌∙◌, ℕ, suc, ◌+◌, ◌≤◌, ◌<◌, Bool, true, false, Option, none, some, List, [], ◌∷◌, ◌++◌,
  map, arith, All, All-weaken, All-append,
}
use haru_trade_manager.RateLimit.{
  Job, Client, Step, submitting, taking, put, submit, taken, take_job, run_steps, wait_of,
  note_call,
}

-- How many calls have come, and the numbers of the orders and of the others that wait.
abbrev pub Lanes : Type 0
Lanes = ℕ × List ℕ × List ℕ

abbrev pub submit_lane : Bool → Lanes → Lanes
submit_lane true (n, orders, others) = (suc n, orders ++ suc n ∷ [], others)
submit_lane false (n, orders, others) = (suc n, orders, others ++ suc n ∷ [])

-- The oldest order, and where there is none the oldest other call.
abbrev pub take_lane : Lanes → Option ℕ × Lanes
take_lane (n, [], []) = (none, (n, [], []))
take_lane (n, [], seq ∷ others) = (some seq, (n, [], others))
take_lane (n, seq ∷ orders, others) = (some seq, (n, orders, others))

abbrev pub run_lanes : List Step → Lanes → List (Option ℕ) × Lanes
run_lanes [] l = ([], l)
run_lanes (submitting is_order ∷ steps) l = run_lanes steps (submit_lane is_order l)
run_lanes (taking ∷ steps) l =
    let (seq, l') = take_lane l in let (seqs, l'') = run_lanes steps l' in (seq ∷ seqs, l'')

abbrev pub order : ℕ → Job
order seq = record { priority = 0; seq = seq }

abbrev pub other : ℕ → Job
other seq = record { priority = 1; seq = seq }

abbrev pub number_of : Option Job → Option ℕ
number_of none = none
number_of (some job) = some job.seq

-- The queue is the two lanes in a row, and every number in them has been given out.
abbrev pub Refines : Client → Lanes → Type 0
Refines c (n, orders, others) =
    (c.seq ≡ n)
    × (c.queue ≡ map order orders ++ map other others)
    × All (λ k. k ≤ n) orders
    × All (λ k. k ≤ n) others

put-others :
    (seq : ℕ) (ns : List ℕ)
    → All (λ n. n < seq) ns
    → put (other seq) (map other ns) ≡ map other (ns ++ seq ∷ [])
unfolding put
put-others seq [] h = refl
put-others seq (n ∷ ns) h = ground (arith, put-others seq ns h.1)

put-orders_first :
    (seq : ℕ) (ns : List ℕ) → put (order seq) (map other ns) ≡ order seq ∷ map other ns
unfolding put
put-orders_first seq [] = refl
put-orders_first seq (n ∷ ns) = refl

put-orders :
    (seq : ℕ) (os ns : List ℕ)
    → All (λ n. n < seq) os
    → put (order seq) (map order os ++ map other ns) ≡ map order (os ++ seq ∷ []) ++ map other ns
unfolding put
put-orders seq [] ns h = put-orders_first seq ns
put-orders seq (o ∷ os) ns h = ground (arith, put-orders seq os ns h.1)

put-others_last :
    (seq : ℕ) (os ns : List ℕ)
    → All (λ n. n < seq) ns
    → put (other seq) (map order os ++ map other ns) ≡ map order os ++ map other (ns ++ seq ∷ [])
unfolding put
put-others_last seq [] ns h = put-others seq ns h
put-others_last seq (o ∷ os) ns h = rw (put-others_last seq os ns h) refl

later : (n : ℕ) (ns : List ℕ) → All (λ k. k ≤ n) ns → All (λ k. k ≤ suc n) ns
later n ns = All-weaken (λ k. k ≤ n) (λ k. k ≤ suc n) ns (λ k h. omega (arith, h))

below : (n : ℕ) (ns : List ℕ) → All (λ k. k ≤ n) ns → All (λ k. k < suc n) ns
below n ns = All-weaken (λ k. k ≤ n) (λ k. k < suc n) ns (λ k h. omega (arith, h))

submit-Refines :
    (is_order : Bool) (c : Client) (l : Lanes)
    → Refines c l
    → Refines (submit is_order c) (submit_lane is_order l)
unfolding submit
submit-Refines true c (n, orders, others) (same, queued, below_o, below_n) =
    rw (same, queued)
      (
        refl,
        put-orders (suc n) orders others (below n orders below_o),
        All-append (λ k. k ≤ suc n) orders (suc n ∷ []) (later n orders below_o) (omega arith, tt),
        later n others below_n,
      )
submit-Refines false c (n, orders, others) (same, queued, below_o, below_n) =
    rw (same, queued)
      (
        refl,
        put-others_last (suc n) orders others (below n others below_n),
        later n orders below_o,
        All-append (λ k. k ≤ suc n) others (suc n ∷ []) (later n others below_n) (omega arith, tt),
      )

-- What comes off a queue that is the lanes in a row.
taken-Refines :
    (c : Client) (l : Lanes) (queue : List Job)
    → Refines (record c { queue = queue }) l
    → c.queue ≡ queue
    → (number_of (taken c queue).0 ≡ (take_lane l).0) × Refines (taken c queue).1 (take_lane l).1
taken-Refines c (n, [], []) queue (same, queued, below_o, below_n) whole =
    rw queued (refl, (same, whole ∙ queued, tt, tt))
taken-Refines c (n, [], k ∷ others) queue (same, queued, below_o, below_n) whole =
    rw queued (refl, (same, refl, tt, below_n.1))
taken-Refines c (n, k ∷ orders, others) queue (same, queued, below_o, below_n) whole =
    rw queued (refl, (same, refl, below_o.1, below_n))

run_steps-Refines :
    (steps : List Step) (c : Client) (l : Lanes)
    → Refines c l
    → (map number_of (run_steps steps c).0 ≡ (run_lanes steps l).0)
      × Refines (run_steps steps c).1 (run_lanes steps l).1
unfolding run_steps take_job
run_steps-Refines [] c l h = (refl, h)
run_steps-Refines (submitting is_order ∷ steps) c l h =
    run_steps-Refines steps (submit is_order c) (submit_lane is_order l)
      (submit-Refines is_order c l h)
run_steps-Refines (taking ∷ steps) c l h =
    let (first, next) = taken-Refines c l c.queue h refl in
    let (rest, last) = run_steps-Refines steps (taken c c.queue).1 (take_lane l).1 next in
    (rw (first, rest) refl, last)

-- However calls are submitted and taken, from an empty queue: the worker gets the same calls, in the
-- same order, as from two queues, one of the orders and one of the other calls, that are each first
-- in, first out, where the orders are served first.
pub run_steps-lanes :
    (steps : List Step) (c : Client)
    → c.queue ≡ []
    → map number_of (run_steps steps c).0 ≡ (run_lanes steps (c.seq, [], [])).0
run_steps-lanes steps c empty = (run_steps-Refines steps c (c.seq, [], []) (refl, empty, tt, tt)).0

-- After a call that gave its result at `called`, the worker that looks at the clock at `now` waits so
-- long that the next call starts no sooner than the interval after that.
pub wait_of-interval :
    (called now : ℕ) (c : Client)
    → called ≤ now
    → called + c.min_interval ≤ now + wait_of now (note_call true called c)
unfolding wait_of note_call
wait_of-interval called now c h = ground arith
