-- ===== src/BodyLogger/Tests.antt =====
-- The theorem on bodies, where the body fails within the limit.
use ratelimiter_redis.Base.{ℕ, ◌≡◌, none, some, List, [], ◌∷◌, length}
use ratelimiter_redis.Base.Int.{pos}
use ratelimiter_redis.Http.{set_header, write}
use ratelimiter_redis.Http.Body.{Body, BodyHandler}
use ratelimiter_redis.Http.Samples.{get_root}
use ratelimiter_redis.BodyLogger.{
  adaptive_itoa, BodyLoggerOption, with_body_log_header, with_body_log_max_bytes,
  with_request_body_logger,
}
use ratelimiter_redis.Adaptive.{adaptive_itoa}
use ratelimiter_redis.BodyLogger.Restoring.{body_restored}

-- It counts the bytes that it gets.
abbrev counts : BodyHandler ℕ
counts r none n = (write "none" ∷ [], n)
counts r (some b) n = (write "some" ∷ [], length b.bytes)

abbrev options : List (BodyLoggerOption ℕ)
options = with_body_log_header "X-Bytes" ∷ with_body_log_max_bytes (pos 4) ∷ []

abbrev broken : Body
broken = record { bytes = 71 ∷ 72 ∷ []; failure = some "connection reset" }

body_restored_example :
    with_request_body_logger options counts get_root (some broken) 7
    ≡ (set_header "X-Bytes" "0" ∷ write "some" ∷ [], 0)
unfolding adaptive_itoa
body_restored_example = body_restored options counts get_root broken 7
