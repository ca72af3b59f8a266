-- ===== src/Priority/Tests.antt =====
-- The theorems on priorities.
use ratelimiter_redis.Base.{◌&&◌, leb, ℕ, ◌*◌, ◌/◌, ◌≡◌, refl, List, [], ◌∷◌, arith}
use ratelimiter_redis.Base.Int.{◌+ℤ◌, pos, pos_part}
use ratelimiter_redis.Base.Clock.{Moment}
use ratelimiter_redis.Base.Text.{itoa}
use ratelimiter_redis.Http.{Request, header_set}
use ratelimiter_redis.Http.Samples.{get_root}
use ratelimiter_redis.Memory.{new_memory_store}
use ratelimiter_redis.Priority.{Multiplier, default_priority_key_func}
use ratelimiter_redis.Priority.Tiers.{Visit, responses, judged, priority_judges}
use ratelimiter_redis.Priority.Header.{priority_read}

-- Multipliers in halves.
abbrev halves : Multiplier ℕ
halves = record {
  two = 4;
  half = 1;
  scale = λ n m. pos (pos_part n * m / 2);
  at_least_one = λ m. leb 2 m;
  in_unit = λ m. leb 1 m && leb m 2;
}

abbrev urgent : Request
urgent = record get_root { header = ("X-Request-Priority", "12" ∷ []) ∷ [] }

abbrev at : ℕ → Moment
at n = record { first = pos n; second = pos n }

-- The second request is urgent, and passes; the third is not, and is refused.
abbrev rest : List Visit
rest = (at 10, urgent) ∷ (at 20, get_root) ∷ []

priority_judges_example :
    responses {S = ℕ} halves
      (pos 1)
      []
      "10.0.0.1:80"
      ((at 5, get_root) ∷ rest)
      (new_memory_store, 0)
    ≡ judged {S = ℕ} halves (pos 1) [] "10.0.0.1:80" 0 ((at 5, get_root) ∷ rest) 0
unfolding ◌+ℤ◌
priority_judges_example =
    priority_judges {S = ℕ} halves (pos 1) [] "10.0.0.1:80" (at 5) get_root rest new_memory_store 0
      (omega arith) refl refl ((refl, omega arith), ((refl, omega arith), tt))

priority_read_example :
    default_priority_key_func
      (record get_root { header = header_set "X-Request-Priority" (itoa (pos 12)) [] })
    ≡ pos 12
priority_read_example = priority_read get_root (pos 12) (omega arith, omega arith)
