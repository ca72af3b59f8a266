-- ===== src/Hedging/Returning.antt =====
-- What has happened when the handler returns.
use ratelimiter_redis.Base.{List}
