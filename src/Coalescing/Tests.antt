-- ===== src/Coalescing/Tests.antt =====
-- The theorems on coalesced calls at a concrete schedule.
use ratelimiter_redis.Base.{◌+◌, ℕ, ◌≤◌, ◌≡◌, String, List, [], ◌∷◌, All}
use ratelimiter_redis.Base.Threads.{run, total}
use ratelimiter_redis.Coalescing.{act, Outcome, one_count, group_run}
use ratelimiter_redis.Coalescing.Leaders.{leads_for, one_leader}
use ratelimiter_redis.Coalescing.Outcomes.{runs_call, Settled, one_outcome}

-- The first two callers share a call; the third has another key.
abbrev schedule : List (ℕ × Outcome)
schedule = (0, one_count) ∷ (1, one_count) ∷ (2, one_count) ∷ (0, one_count) ∷ (1, one_count) ∷ []

abbrev keys : List String
keys = "a" ∷ "a" ∷ "b" ∷ []

one_leader_example :
    (total (leads_for "a") (group_run schedule keys).1 ≤ 1)
    × (total (leads_for "a") (group_run schedule keys).1 ≡ 1)
unfolding run act
one_leader_example = one_leader schedule keys "a"

one_outcome_example :
    All (Settled 0 (group_run schedule keys).0) (group_run schedule keys).1
    × (total (runs_call 0) (group_run schedule keys).1 + 1 ≡ 1)
unfolding run act
one_outcome_example = one_outcome schedule keys 0
