-- ===== src/Leaky.antt =====
-- leaky_bucket.go, over the two pipelines that it sends to Redis. Times are nanoseconds since the epoch.
pub mod Admission
pub mod Bound
mod Tests
use Prim.Native.String.{◌++◌}
use ratelimiter_redis.Base.{
  ℕ, suc, ◌/◌, String, Bool, true, false, Option, none, some, Result, ok, err, if◌then◌else◌,
}
use ratelimiter_redis.Base.Int.{ℤ, pos, negsuc, sub_ℕ, add64, sub64, wrap64, ltb_ℤ, leb_ℤ}
use ratelimiter_redis.Base.Clock.{Time, Duration}

-- The quotient of Go's `/`, rounded towards 0; the divisor is not 0.
abbrev pub quotient : ℤ → ℤ → ℤ
quotient (pos a) (pos b) = pos (a / b)
quotient (negsuc a) (pos b) = sub_ℕ 0 (suc a / b)
quotient (pos a) (negsuc b) = sub_ℕ 0 (a / suc b)
quotient (negsuc a) (negsuc b) = pos (suc a / suc b)

unfoldable pub div64 : ℤ → ℤ → ℤ
unfolding wrap64
div64 a b = wrap64 (quotient a b)

pub record LeakyBucketCounter : Type 0 where
  pub rate : ℤ
  pub window : Duration
  pub leak_rate : Duration

-- NewLeakyBucketCounter, of a rate that is not 0; the client is an argument of `allow`.
abbrev pub new_leaky_bucket_counter : ℤ → Duration → LeakyBucketCounter
unfolding div64
new_leaky_bucket_counter rate window = record {
  rate = rate;
  window = window;
  leak_rate = div64 window rate;
}

-- The pipelines of the Redis client over a state `R`, at the server's time: two GETs, whose values `Int`
-- and `Int64` parse, and two SETs of keys that expire after the duration.
pub record LeakyClient (R : Type 0) : Type 0 where
  pub get_both : Time → String → String → R → Result ℤ × Result ℤ × R
  pub set_both : Time → String → ℤ → String → ℤ → Duration → R → Result (Unit {0}) × R

abbrev pub value_or : ℤ → Result ℤ → ℤ
value_or d (ok n) = n
value_or d (err e) = d

-- The count at `now`, after what has leaked since `last`.
unfoldable pub drained : LeakyBucketCounter → ℤ → ℤ → ℤ → ℤ
unfolding div64 sub64
drained l now count last =
    let by_time = div64 (sub64 now last) l.leak_rate in
    let leaked = if ltb_ℤ count by_time then count else by_time in
    let left = sub64 count leaked in if ltb_ℤ left (pos 0) then pos 0 else left

pub record LeakyDecision : Type 0 where
  pub allowed : Bool
  pub remaining : ℤ

abbrev pub after_set : ℤ → Result (Unit {0}) → Result LeakyDecision
after_set remaining (ok _) = ok (record { allowed = true; remaining = remaining })
after_set remaining (err e) = err ("leaky bucket pipeline exec: " ++ e)

-- What `Allow` does with the count after the leak.
abbrev pub admit :
    {R : Type 0}
    → LeakyClient R
    → LeakyBucketCounter
    → ℤ
    → Time
    → String
    → ℤ
    → R
    → Result LeakyDecision × R
admit client l now at key count m =
    let (sent, m') =
      client.set_both at ("leaky:" ++ key) (add64 count (pos 1)) ("leaky:" ++ key ++ ":last") now
        l.window m in
    if leb_ℤ l.rate count
    then (ok (record { allowed = false; remaining = pos 0 }), m)
    else (after_set (sub64 l.rate (add64 count (pos 1))) sent, m')

-- Allow, at `now` of the caller's clock; `got_at` and `set_at` are the server's at the two pipelines.
unfoldable pub allow :
    {R : Type 0}
    → LeakyClient R
    → LeakyBucketCounter
    → ℤ
    → Time
    → Time
    → String
    → R
    → Result LeakyDecision × R
unfolding drained
allow client l now got_at set_at key m =
    let (got_count, got_last, m') =
      client.get_both got_at ("leaky:" ++ key) ("leaky:" ++ key ++ ":last") m in
    admit client l now set_at key
      (drained l now (value_or (pos 0) got_count) (value_or now got_last)) m'
