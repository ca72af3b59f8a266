-- ===== src/Logger/Tests.antt =====
-- The logger's theorem, where the strategy rejects.
use ratelimiter_redis.Base.{◌+◌, ℕ, suc, ◌≡◌, String, false, none, some, ok, ◌∷◌, arith}
use ratelimiter_redis.Base.Int.{pos_part, pos}
use ratelimiter_redis.Base.Clock.{seconds}
use ratelimiter_redis.Http.{Request, set_header, http_error}
use ratelimiter_redis.Http.Samples.{get_root, greets}
use ratelimiter_redis.RateLimiter.{Counter, new, format_seconds}
use ratelimiter_redis.Base.Text.{itoa, decimal_digits}
use ratelimiter_redis.RateLimiter.Admission.{options}
use ratelimiter_redis.Logger.{StandardLogger, LogEntry, with_request_logger}
use ratelimiter_redis.Logger.Entry.{logger_tells}

-- It counts its calls, and rejects them.
abbrev rejecting : Counter ℕ
rejecting key n = (ok (record { allowed = false; remaining = pos 17; reset = seconds 3 }), suc n)

-- It adds what is left.
abbrev adds : LogEntry → ℕ × ℕ → ℕ × ℕ
adds entry (c, s) = (c, s + pos_part entry.remaining)

abbrev discards : StandardLogger (ℕ × ℕ)
discards = record { print = λ line s. s; show = λ d. "" }

abbrev key : Request → String
key r = r.remote_addr

logger_tells_example :
    with_request_logger discards key
      (seconds 1)
      (new key (options key rejecting greets none) greets)
      none
      (some adds)
      get_root
      (0, 7)
    ≡ (
      set_header "X-RateLimit-Remaining" "17"
          ∷ set_header "X-RateLimit-Reset" "3"
          ∷ http_error "rate limit exceeded" 429,
      (1, 24),
    )
unfolding new itoa decimal_digits format_seconds
logger_tells_example =
    logger_tells discards key (seconds 1) rejecting none (some adds) greets get_root 0 7
      (omega arith, omega arith) tt
