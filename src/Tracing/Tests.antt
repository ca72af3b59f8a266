-- ===== src/Tracing/Tests.antt =====
-- The theorem on the tracing's headers at a concrete request.
use ratelimiter_redis.Base.{ℕ, suc, ◌≡◌, refl, none, []}
use ratelimiter_redis.Base.Int.{pos}
use ratelimiter_redis.Base.Text.{itoa}
use ratelimiter_redis.Base.Clock.{seconds}
use ratelimiter_redis.Http.{sent_header}
use ratelimiter_redis.Http.Samples.{get_root, greets}
use ratelimiter_redis.Tracing.{Generator, with_request_tracing}
use ratelimiter_redis.Tracing.Latency.{latency_too_late}

-- It counts its draws.
abbrev counts_draws : Generator ℕ
counts_draws n = (itoa (pos n), suc n)

latency_too_late_example :
    sent_header "X-Trace-Latency-Ms" []
      (with_request_tracing counts_draws (seconds 2) none greets get_root 0).0
    ≡ []
unfolding sent_header
latency_too_late_example =
    latency_too_late counts_draws (seconds 2) none greets get_root 0 "X-Trace-Latency-Ms" refl
