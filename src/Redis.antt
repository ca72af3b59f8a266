-- ===== src/Redis.antt =====
-- The parts that stand on Redis: redis_store.go, fixed_window.go, sliding_window.go and token_bucket.go.
-- The client, of another package, is a parameter of each: the pipelines and the commands that the part
-- sends, over the state of the server. A command takes the server's time, which decides what has expired.
pub mod RedisStore
pub mod FixedWindow
pub mod SlidingWindow
pub mod TokenBucket
use ratelimiter_redis.Base.{Result, ok, err}

-- What Exec returns: the first error of the commands, in their order; else the value that is asked for.
abbrev pub after_ok : {A B : Type 0} → Result A → Result B → Result B
after_ok (err e) b = err e
after_ok (ok a) b = b

abbrev pub then_ok : {A B : Type 0} → Result A → Result B → Result A
then_ok (err e) b = err e
then_ok (ok a) b = after_ok b (ok a)
