-- ===== src/Hedging/Launches.antt =====
-- How many attempts are launched.
use ratelimiter_redis.Base.{inl, ◌⊎◌, ℕ, suc, ◌+◌, ◌≤◌, ◌≡◌, refl, false, List, [], ◌∷◌, arith}
use ratelimiter_redis.Hedging.{
  Launching, start, LoopEvent, attempt_ends, receives_done, receives_timer, loop_step, loop_run,
}

-- The timer has fired for each hedge, and it is not set again.
pub record IsBounded (max_hedges : ℕ) (l : Launching) : Type 0 where
  pub once : (l.launched ≡ 1) ⊎ ((l.launched ≡ 2) × (l.timer ≡ false))
  pub within : l.launched + l.rounds ≤ suc max_hedges

loop_step-IsBounded :
    (max_hedges : ℕ) (e : LoopEvent) (l : Launching)
    → IsBounded max_hedges l
    → IsBounded max_hedges (loop_step e l)
unfolding loop_step
loop_step-IsBounded max_hedges attempt_ends l h = ground arith
loop_step-IsBounded max_hedges receives_done l h = ground arith
loop_step-IsBounded max_hedges receives_timer l h = ground arith

loop_run-IsBounded :
    (max_hedges : ℕ) (es : List LoopEvent) (l : Launching)
    → IsBounded max_hedges l
    → IsBounded max_hedges (loop_run es l)
unfolding loop_run
loop_run-IsBounded max_hedges [] l h = h
loop_run-IsBounded max_hedges (e ∷ es) l h =
    loop_run-IsBounded max_hedges es (loop_step e l) (loop_step-IsBounded max_hedges e l h)

-- Whatever `maxHedges`, at most one hedge follows the first attempt, for the timer fires once; and with
-- `maxHedges` hedges at most.
pub one_hedge :
    (max_hedges : ℕ) (es : List LoopEvent)
    → let l = loop_run es (start max_hedges) in (l.launched ≤ 2) × (l.launched ≤ suc max_hedges)
one_hedge max_hedges es =
    let last =
      loop_run-IsBounded max_hedges es (start max_hedges)
        (record { once = inl refl; within = omega arith }) in
    ground (arith, last)
