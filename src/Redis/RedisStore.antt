-- ===== src/Redis/RedisStore.antt =====
-- redis_store.go: a `Store` on the commands of a client.
pub mod Expiry
mod Tests
use ratelimiter_redis.Base.{String, Bool, Result, ok, err}
use ratelimiter_redis.Base.Int.{ℤ, pos}
use ratelimiter_redis.Base.Clock.{Time, Duration, Moment}
use ratelimiter_redis.Redis.{then_ok}
use ratelimiter_redis.Store.{Store}

-- What GET, parsed as a number, replies; `nil` is redis.Nil.
pub data Reply (A : Type 0) : Type 0 where
  found : A → Reply A
  nil : Reply A
  failed : String → Reply A

pub record RedisClient (R : Type 0) : Type 0 where
  pub incr : Time → String → R → Result ℤ × R
  pub expire : Time → String → Duration → R → Result (Unit {0}) × R
  -- Exec of the commands of a TxPipeline, which run at once; or it fails.
  pub exec : (R → Result ℤ × R) → R → Result ℤ × R
  pub get : Time → String → R → Reply ℤ × R
  pub set : Time → String → ℤ → Duration → R → Result (Unit {0}) × R
  pub set_nx : Time → String → ℤ → Duration → R → Result Bool × R
  pub ttl : Time → String → R → Result Duration × R
  pub del : String → R → Result (Unit {0}) × R
  pub ping : R → Result (Unit {0}) × R

abbrev pub or_zero : Reply ℤ → Result ℤ
or_zero (found n) = ok n
or_zero nil = ok (pos 0)
or_zero (failed e) = err e

-- The commands of Increment, run at one time of the server; Expire goes out on every call.
abbrev pub incr_expire : {R : Type 0} → RedisClient R → Time → String → Duration → R → Result ℤ × R
incr_expire client now key window r =
    let (count, r') = client.incr now key r in
    let (expired, r'') = client.expire now key window r' in (then_ok count expired, r'')

-- NewRedisStore; the only clock is the server's, the first of each moment.
abbrev pub new_redis_store : {R : Type 0} → RedisClient R → Store R
new_redis_store client = record {
  increment = λ mo key window r. client.exec (incr_expire client mo.first key window) r;
  get = λ mo key r. let (reply, r') = client.get mo.first key r in (or_zero reply, r');
  set = λ mo key value expiry r. client.set mo.first key value expiry r;
  set_nx = λ mo key value expiry r. client.set_nx mo.first key value expiry r;
  ttl = λ mo key r. client.ttl mo.first key r;
  delete = λ key r. client.del key r;
  ping = λ r. client.ping r;
}
