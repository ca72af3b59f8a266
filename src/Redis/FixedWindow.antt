-- ===== src/Redis/FixedWindow.antt =====
-- fixed_window.go: `Allow` on the commands of a client, which are its parameter.
pub mod Admission
mod Tests
use Prim.Native.String.{◌++◌}
use ratelimiter_redis.Base.{String, Bool, true, false, Result, ok, err, if◌then◌else◌}
use ratelimiter_redis.Base.Int.{ℤ, pos, ltb_ℤ, sub64, ◌+ℤ◌}
use ratelimiter_redis.Base.Clock.{Time, Duration, truncate, unix}
use ratelimiter_redis.Redis.{then_ok}
use ratelimiter_redis.Base.Text.{itoa}

pub record FixedWindowCounter : Type 0 where
  pub window : Duration
  pub max : ℤ

-- NewFixedWindowCounter; the client is an argument of `allow`.
abbrev pub new_fixed_window_counter : Duration → ℤ → FixedWindowCounter
new_fixed_window_counter window max = record { window = window; max = max }

-- What `Allow` returns without an error.
pub record FixedDecision : Type 0 where
  pub allowed : Bool
  pub remaining : ℤ
  pub reset_at : Time

-- INCR and EXPIREAT at the server's time, and the pipeline's Exec, which runs its commands, here at one
-- time, or fails. The instant of the expiry is as the caller gives it; the client sends whole seconds.
pub record WindowCommands (R : Type 0) : Type 0 where
  pub incr : Time → String → R → Result ℤ × R
  pub expire_at : Time → String → Time → R → Result (Unit {0}) × R
  pub exec : (R → Result ℤ × R) → R → Result ℤ × R

-- The commands of the pipeline.
abbrev pub pipeline : {R : Type 0} → WindowCommands R → Time → String → Time → R → Result ℤ × R
pipeline commands now key end r =
    let (count, r') = commands.incr now key r in
    let (expiring, r'') = commands.expire_at now key end r' in (then_ok count expiring, r'')

abbrev pub window_start : FixedWindowCounter → Time → Time
window_start f now = truncate now f.window

unfoldable pub reset_at : FixedWindowCounter → Time → Time
unfolding ◌+ℤ◌
reset_at f now = window_start f now +ℤ f.window

-- fmt.Sprintf("fw:%s:%d", key, windowStart.Unix())
unfoldable pub redis_key : FixedWindowCounter → Time → String → String
unfolding unix itoa
redis_key f now key = "fw:" ++ key ++ ":" ++ itoa (unix (window_start f now))

-- What `Allow` makes of the count.
unfoldable pub decide : FixedWindowCounter → Time → Result ℤ → Result FixedDecision
decide f reset (err e) = err ("fixed window pipeline: " ++ e)
decide f reset (ok count) =
    let left = sub64 f.max count in
    let remaining = if ltb_ℤ left (pos 0) then pos 0 else left in
    if ltb_ℤ f.max count
    then ok (record { allowed = false; remaining = remaining; reset_at = reset })
    else ok (record { allowed = true; remaining = remaining; reset_at = reset })

-- Allow: `now` is its reading of the clock, and `server` the server's at the pipeline.
unfoldable pub allow :
    {R : Type 0}
    → WindowCommands R
    → FixedWindowCounter
    → Time
    → Time
    → String
    → R
    → Result FixedDecision × R
unfolding redis_key reset_at decide
allow commands f now server key r =
    let (count, r') =
      commands.exec (pipeline commands server (redis_key f now key) (reset_at f now)) r in
    (decide f (reset_at f now) count, r')
