-- ===== src/Throttle/Tests.antt =====
-- One slot, a queue of one, and three requests.
use ratelimiter_redis.Base.{ℕ, ◌≤◌, ◌≡◌, refl, true, List, [], ◌∷◌, arith}
use ratelimiter_redis.Base.Int.{pos}
use ratelimiter_redis.Throttle.{
  ThrottleConfig, new_shared, Phase, serving, queued, exceeded, Event, runs, timer_fires, run,
}
use ratelimiter_redis.Throttle.Capacity.{
  all_arriving, count_serving, count_queued, throttle_capacity,
}
use ratelimiter_redis.Throttle.Queue.{refused_at, refused_never_served}

abbrev narrow : ThrottleConfig
narrow = record { max_concurrent = pos 1; queue_size = 1 }

abbrev crowd : List (ℕ × Event)
crowd = (0, runs) ∷ (1, runs) ∷ (2, runs) ∷ (1, runs) ∷ (2, runs) ∷ []

throttle_capacity_example :
    let (s, ps) = run narrow crowd new_shared (all_arriving 3) in
    (s.active ≡ pos (count_serving ps))
    × (s.queue ≡ count_queued ps)
    × (count_serving ps ≤ 1)
    × (count_queued ps ≤ 1)
throttle_capacity_example = throttle_capacity narrow crowd 3 (omega arith)

abbrev waiting : List Phase
waiting = serving ∷ queued ∷ exceeded ∷ []

-- The first request leaves, and the second stays in the queue until its time is over.
refused_never_served_example :
    refused_at 1
      (run narrow
        ((0, runs) ∷ (1, runs) ∷ (1, timer_fires) ∷ [])
        (record { active = pos 1; queue = 1 })
        waiting).1
    ≡ true
refused_never_served_example =
    refused_never_served narrow ((0, runs) ∷ (1, runs) ∷ (1, timer_fires) ∷ []) 1
      (record { active = pos 1; queue = 1 }) waiting refl
