-- ===== src/Timeout/Tests.antt =====
-- A timeout after the handler has begun its answer.
use ratelimiter_redis.Base.{ℕ, ◌≡◌, refl, some, []}
use ratelimiter_redis.Base.Clock.{seconds}
use ratelimiter_redis.Http.{status}
use ratelimiter_redis.Http.Samples.{get_root, greets}
use ratelimiter_redis.Timeout.{with_request_timeout}
use ratelimiter_redis.Timeout.Race.{begun_answer_stands}

begun_answer_stands_test :
    status (with_request_timeout {T = ℕ} (some (1, [])) (seconds 1) [] greets get_root (0, 0)).0
    ≡ 200
begun_answer_stands_test = begun_answer_stands {T = ℕ} 1 [] (seconds 1) [] greets get_root 0 0 refl
