-- ===== src/RetryAfter/Tests.antt =====
-- The theorem on Retry-After at a concrete response.
use ratelimiter_redis.Base.{◌≡◌, refl, some, [], ◌∷◌}
use ratelimiter_redis.Base.Clock.{seconds}
use ratelimiter_redis.Base.Text.{itoa}
use ratelimiter_redis.Http.{status, sent_header}
use ratelimiter_redis.Http.Samples.{get_root, blocks}
use ratelimiter_redis.RetryAfter.{retry_after_middleware, fixed_retry_after}
use ratelimiter_redis.RetryAfter.Client.{retry_after_on_429}

retry_after_on_429_test :
    let (calls, after) =
      retry_after_middleware blocks
        (some (fixed_retry_after (seconds 60)))
        (seconds 60)
        get_root
        0 in
    (status calls ≡ 429) × (sent_header "Retry-After" [] calls ≡ "60" ∷ []) × (after ≡ 1)
unfolding itoa
retry_after_on_429_test =
    retry_after_on_429 blocks (some (fixed_retry_after (seconds 60))) (seconds 60) get_root 0
      (refl, tt)
