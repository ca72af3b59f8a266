-- ===== src/Burst/Middleware.antt =====
-- burst_middleware.go. A key function returns a key or an error, as the file calls it.
use Prim.Native.String.{String}
use ratelimiter_redis.Base.{Option, none, some, Result, ok, err, ◌∷◌, if◌then◌else◌}
use ratelimiter_redis.Base.Int.{add64}
use ratelimiter_redis.Base.Clock.{Time, Moment}
use ratelimiter_redis.Base.Text.{itoa}
use ratelimiter_redis.Http.{set_header, Request, Handler, http_error}
use ratelimiter_redis.Store.{Store}
use ratelimiter_redis.Burst.{BurstCounter, BurstDecision, allow}

pub record BurstConfig (S : Type 0) : Type 0 where
  pub counter : BurstCounter
  pub key_func : Option (Request → Result String)
  pub limit_exceeded : Option (Handler S)

abbrev pub default_limit_exceeded : {S : Type 0} → Handler S
default_limit_exceeded r s = (http_error "rate limit exceeded" 429, s)

abbrev or_default {ℓ} : {A : Type ℓ} → A → Option A → A
or_default d none = d
or_default d (some a) = a

-- After `Allow`.
abbrev pub respond :
    {S : Type 0} → BurstCounter → Handler S → Handler S → Result BurstDecision → Handler S
respond b exceeded next (err e) r s = (http_error "rate limiter error" 500, s)
respond b exceeded next (ok d) r s =
    let (calls, s') = (if d.allowed then next r s else exceeded r s) in
    (
      set_header "X-RateLimit-Limit" (itoa (add64 b.limit b.burst))
          ∷ set_header "X-RateLimit-Remaining" (itoa d.remaining)
          ∷ set_header "X-RateLimit-Burst" (itoa b.burst)
          ∷ calls,
      s',
    )

abbrev serve_key :
    {M S : Type 0}
    → Store M
    → BurstCounter
    → Handler S
    → Time
    → Moment
    → Handler S
    → Result String
    → Handler (M × S)
serve_key store b exceeded now mo next (err e) r (m, s) =
    (http_error "rate limiter key error" 500, (m, s))
serve_key store b exceeded now mo next (ok key) r (m, s) =
    let (decision, m') = allow store b now mo key m in
    let (calls, s') = respond b exceeded next decision r s in (calls, (m', s'))

-- WithBurst; the first argument is `defaultKeyFunc`.
unfoldable pub with_burst :
    {M S : Type 0}
    → (Request → Result String)
    → Store M
    → BurstConfig S
    → Time
    → Moment
    → Handler S
    → Handler (M × S)
with_burst default_key_func store cfg now mo next r =
    serve_key store cfg.counter (or_default default_limit_exceeded cfg.limit_exceeded) now mo next
      (or_default default_key_func cfg.key_func r) r
