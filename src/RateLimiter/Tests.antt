-- ===== src/RateLimiter/Tests.antt =====
-- The middleware's theorems at concrete requests.
use Prim.Native.String.{String}
use ratelimiter_redis.Base.{ℕ, zero, suc, ◌≡◌, refl, none, ok, err, List, [], ◌∷◌, true, false}
use ratelimiter_redis.Base.Text.{itoa}
use ratelimiter_redis.Base.Int.{pos}
use ratelimiter_redis.Base.Clock.{seconds}
use ratelimiter_redis.Http.{sent_header, Call, Request, status}
use ratelimiter_redis.Http.Samples.{get_root, greets}
use ratelimiter_redis.RateLimiter.{format_seconds, itoa, Counter, new}
use ratelimiter_redis.RateLimiter.Admission.{
  admitted, serve_all, options, new_filters, rejected_response, fails_open,
}

-- It allows as many requests as its state says, whatever the key.
abbrev tickets : Counter ℕ
tickets key zero = (ok (record { allowed = false; remaining = pos 0; reset = seconds 30 }), 0)
tickets key (suc n) = (ok (record { allowed = true; remaining = pos n; reset = seconds 30 }), n)

abbrev broken : Counter ℕ
broken key n = (err "redis: connection refused", n)

abbrev addr_key : Request → String
addr_key r = r.remote_addr

abbrev served : Counter ℕ → List Call × (ℕ × ℕ)
served limiter = new addr_key (options addr_key limiter greets none) greets get_root (0, 5)

new_filters_example :
    serve_all
      (new addr_key (options addr_key tickets greets none) greets)
      (get_root ∷ get_root ∷ get_root ∷ [])
      (2, 0)
    ≡ (0, 2)
unfolding admitted serve_all
new_filters_example =
    new_filters addr_key tickets greets none (get_root ∷ get_root ∷ get_root ∷ []) 2 0

rejected_response_test :
    (status (served tickets).0 ≡ 429)
    × (sent_header "X-RateLimit-Remaining" [] (served tickets).0 ≡ "0" ∷ [])
    × (sent_header "X-RateLimit-Reset" [] (served tickets).0 ≡ "30" ∷ [])
    × ((served tickets).1 ≡ (0, 5))
unfolding itoa format_seconds
rejected_response_test =
    rejected_response addr_key tickets greets none get_root 0 0 5
      (record { allowed = false; remaining = pos 0; reset = seconds 30 }) refl refl

fails_open_test : served broken ≡ ((greets get_root 5).0, (0, (greets get_root 5).1))
fails_open_test =
    fails_open addr_key broken greets none get_root 0 0 5 "redis: connection refused" refl
