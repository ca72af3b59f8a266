-- ===== src/Redis/TokenBucket.antt =====
-- token_bucket.go: the Lua script, the call that runs it on the server, and `Remaining`. The numbers of
-- Lua and Go's float64 are a parameter, and so are the commands that the script calls.
pub mod Ideal
pub mod Laws
pub mod Levels
pub mod Refill
mod Tests
use Prim.Native.String.{◌++◌}
use ratelimiter_redis.Base.{
  suc, ◌*◌, ◌/◌, String, Bool, Option, none, some, Result, ok, err, if◌then◌else◌,
}
use ratelimiter_redis.Base.Int.{sub_ℕ, negsuc, eqb_ℤ, ℤ, pos, wrap64}
use ratelimiter_redis.Redis.RedisStore.{Reply, found, nil, failed}
use ratelimiter_redis.Base.Clock.{Time, Duration, unix_milli}

-- float64, with the conversion from integers, and `floor` that of math.Floor(x) to `int`. Printing a
-- number for the server and reading it back does not change it.
pub record Float (F : Type 0) : Type 0 where
  pub of_int : ℤ → F
  pub add : F → F → F
  pub sub : F → F → F
  pub mul : F → F → F
  pub div : F → F → F
  pub lt : F → F → Bool
  pub floor : F → ℤ
  -- d.Seconds()
  pub seconds_of : Duration → F

-- GET, as `tonumber` reads it, and SET with PX, the time to live in milliseconds, at the server's time.
pub record Commands (F R : Type 0) : Type 0 where
  pub get : Time → String → R → Option F
  pub set_px : Time → String → F → ℤ → R → R

abbrev pub tokens_key : String → String
tokens_key key = "tb:" ++ key ++ ":tokens"

abbrev pub ts_key : String → String
ts_key key = "tb:" ++ key ++ ":ts"

pub record TokenBucketCounter (F : Type 0) : Type 0 where
  -- Tokens per second.
  pub rate : F
  pub burst : ℤ
  pub window : Duration

-- int64(t.window.Milliseconds() * 2)
unfoldable pub ttl_ms : Duration → ℤ
unfolding wrap64
ttl_ms (pos d) = wrap64 (pos (d / 1000000 * 2))
ttl_ms (negsuc d) = wrap64 (sub_ℕ 0 (suc d / 1000000 * 2))

abbrev answer : Result ℤ → Result Bool
answer (ok result) = ok (eqb_ℤ result (pos 1))
answer (err e) = err ("token bucket allow: " ++ e)

module _ {F : Type 0} (float : Float F) where
  -- NewTokenBucketCounter; the client is an argument of the methods.
  abbrev pub new_token_bucket_counter : ℤ → ℤ → Duration → TokenBucketCounter F
  new_token_bucket_counter rate burst window = record {
    rate = float.div (float.of_int rate) (float.seconds_of window);
    burst = burst;
    window = window;
  }

  abbrev pub math_max : F → F → F
  math_max a b = if float.lt a b then b else a

  abbrev pub math_min : F → F → F
  math_min a b = if float.lt b a then b else a

  abbrev pub or_else : F → Option F → F
  or_else d none = d
  or_else d (some x) = x

  -- The tokens at `now`, of those that there were at `last_ts`; the times are milliseconds.
  unfoldable pub new_tokens : F → F → F → F → F → F
  new_tokens rate burst now last_tokens last_ts =
      let elapsed =
        float.div (math_max (float.of_int (pos 0)) (float.sub now last_ts))
          (float.of_int (pos 1000)) in
      math_min burst (float.add last_tokens (float.mul elapsed rate))

  module _ {R : Type 0} (commands : Commands F R) where
    -- The script, run at the server's time `at`: KEYS[1], KEYS[2] and ARGV[1] to ARGV[4].
    unfoldable pub script : Time → String → String → F → F → F → ℤ → R → ℤ × R
    unfolding new_tokens
    script at tokens_key ts_key rate burst now ttl r =
        let last_tokens = or_else burst (commands.get at tokens_key r) in
        let last_ts = or_else now (commands.get at ts_key r) in
        let tokens = new_tokens rate burst now last_tokens last_ts in
        let one = float.of_int (pos 1) in
        if float.lt tokens one then (pos 0, r) else (
          pos 1,
          commands.set_px at ts_key now ttl
              (commands.set_px at tokens_key (float.sub tokens one) ttl r),
        )

    -- Allow, at `now` of the caller's clock; `send` runs a script on the server, or fails.
    unfoldable pub allow :
        ((R → ℤ × R) → R → Result ℤ × R)
        → TokenBucketCounter F
        → Time
        → Time
        → String
        → R
        → Result Bool × R
    unfolding script ttl_ms unix_milli
    allow send t now at key r =
        let (result, r') =
          send
            (script at (tokens_key key) (ts_key key) t.rate (float.of_int t.burst)
              (float.of_int (unix_milli now)) (ttl_ms t.window))
            r in
        (answer result, r')

  abbrev remaining_of : TokenBucketCounter F → Reply F → Result ℤ
  remaining_of t (found x) = ok (float.floor x)
  remaining_of t nil = ok t.burst
  remaining_of t (failed e) = err ("token bucket remaining: " ++ e)

  -- Remaining; `get` is the client's GET, parsed by `Float64`.
  unfoldable pub remaining : (String → Reply F) → TokenBucketCounter F → String → Result ℤ
  remaining get t key = remaining_of t (get (tokens_key key))
