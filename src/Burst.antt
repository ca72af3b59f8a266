-- ===== src/Burst.antt =====
-- burst.go and burst_middleware.go, over any `Store`.
pub mod Admission
pub mod Middleware
mod Tests
use Prim.Native.String.{String, ◌++◌}
use ratelimiter_redis.Base.{Bool, true, false, Result, ok, err, if◌then◌else◌}
use ratelimiter_redis.Base.Int.{ℤ, pos, add64, sub64, ltb_ℤ}
use ratelimiter_redis.Base.Clock.{Time, Duration, Moment, truncate, unix}
use ratelimiter_redis.Base.Text.{itoa}
use ratelimiter_redis.Store.{Store}

pub record BurstCounter : Type 0 where
  pub limit : ℤ
  pub burst : ℤ
  pub window : Duration

-- NewBurstCounter; the store is an argument of `allow`.
abbrev pub new_burst_counter : ℤ → ℤ → Duration → BurstCounter
new_burst_counter limit burst window = record { limit = limit; burst = burst; window = window }

-- fmt.Sprintf("%s:%d", key, time.Now().Truncate(b.window).Unix())
unfoldable pub window_key : BurstCounter → Time → String → String
unfolding truncate unix itoa
window_key b now key = key ++ ":" ++ itoa (unix (truncate now b.window))

pub record BurstDecision : Type 0 where
  pub allowed : Bool
  pub remaining : ℤ

-- What `Allow` makes of the count that the store returns.
unfoldable pub decide : BurstCounter → Result ℤ → Result BurstDecision
decide b (err e) = err ("burst counter increment: " ++ e)
decide b (ok count) =
    let effective_limit = add64 b.limit b.burst in
    let left = sub64 effective_limit count in
    let remaining = if ltb_ℤ left (pos 0) then pos 0 else left in
    if ltb_ℤ effective_limit count
    then ok (record { allowed = false; remaining = remaining })
    else ok (record { allowed = true; remaining = remaining })

-- Allow: `now` is its own reading of the clock, and `mo` has those of the store.
unfoldable pub allow :
    {M : Type 0} → Store M → BurstCounter → Time → Moment → String → M → Result BurstDecision × M
allow store b now mo key m =
    let (count, m') = store.increment mo (window_key b now key) b.window m in (decide b count, m')
