-- ===== src/Burst/Tests.antt =====
-- The burst counter's theorems at concrete calls.
use ratelimiter_redis.Base.{ℕ, ◌≡◌, refl, [], ◌∷◌, arith}
use ratelimiter_redis.Base.Int.{◌+ℤ◌}
use ratelimiter_redis.Base.Clock.{seconds, truncate}
use ratelimiter_redis.Memory.{new_memory_store}
use ratelimiter_redis.Burst.Admission.{Visit, counter, decisions, count_down, burst_admits}

abbrev visit : ℕ → Visit
visit n = record { now = seconds n; store_reads = record { first = seconds n; second = seconds n } }

abbrev minute : ℕ
minute = 59999999999

burst_admits_example :
    decisions
      (counter 2 1 minute "k" (omega arith))
      "k"
      (visit 61 ∷ visit 62 ∷ visit 70 ∷ visit 100 ∷ [])
      new_memory_store
    ≡ count_down 3 0 (visit 61 ∷ visit 62 ∷ visit 70 ∷ visit 100 ∷ [])
unfolding truncate ◌+ℤ◌
burst_admits_example =
    burst_admits 2 1 minute "k" (omega arith) (seconds 60) (visit 61)
      (visit 62 ∷ visit 70 ∷ visit 100 ∷ []) new_memory_store (omega arith)
      ((refl, omega arith), ((refl, omega arith), ((refl, omega arith), ((refl, omega arith), tt))))
      (omega arith) refl
