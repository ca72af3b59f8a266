-- ===== src/Redis/SlidingWindow.antt =====
-- sliding_window.go: `Allow` on the commands of a client for sorted sets, which are its parameter.
pub mod Recent
pub mod Counting
mod Tests
use Prim.Native.String.{String, ◌++◌}
use ratelimiter_redis.Base.{String, Bool, true, false, Result, ok, err, if◌then◌else◌}
use ratelimiter_redis.Base.Int.{ℤ, pos, ltb_ℤ, add64, sub64, ◌+ℤ◌}
use ratelimiter_redis.Base.Clock.{Time, Duration, nanoseconds, unix_milli}
use ratelimiter_redis.Redis.{after_ok, then_ok}
use ratelimiter_redis.Base.Text.{itoa}

-- ZREMRANGEBYSCORE, ZADD of a score and a member, ZCARD and EXPIRE at the server's time, and Exec, which
-- runs the commands of a TxPipeline at once, or fails. A score is a float64, which has every integer below
-- 2^53.
pub record ZCommands (R : Type 0) : Type 0 where
  pub z_rem_range_by_score : Time → String → String → String → R → Result (Unit {0}) × R
  pub z_add : Time → String → ℤ → String → R → Result (Unit {0}) × R
  pub z_card : Time → String → R → Result ℤ × R
  pub expire : Time → String → Duration → R → Result (Unit {0}) × R
  pub exec : (R → Result ℤ × R) → R → Result ℤ × R

-- The commands of the pipeline, from the text of the last score to remove, the score and the member, and
-- the time to live; and ZCARD's reply.
abbrev pub pipeline :
    {R : Type 0} → ZCommands R → Time → String → String → ℤ → String → Duration → R → Result ℤ × R
pipeline commands at key to score member d r =
    let (removed, r1) = commands.z_rem_range_by_score at key "0" to r in
    let (added, r2) = commands.z_add at key score member r1 in
    let (count, r3) = commands.z_card at key r2 in
    let (expired, r4) = commands.expire at key d r3 in
    (after_ok removed (after_ok added (then_ok count expired)), r4)

-- What `Allow` returns without an error.
pub record SlidingDecision : Type 0 where
  pub allowed : Bool
  pub count : ℤ

-- now.Add(-window)
unfoldable pub window_start : Time → Duration → Time
unfolding ◌+ℤ◌ sub64
window_start now window = now +ℤ sub64 (pos 0) window

-- What `Allow` makes of the count.
unfoldable pub decide : ℤ → Result ℤ → Result SlidingDecision
decide max (err e) = err ("sliding window pipeline exec: " ++ e)
decide max (ok count) =
    if ltb_ℤ max count
    then ok (record { allowed = false; count = count })
    else ok (record { allowed = true; count = count })

unfoldable pub allow :
    {R : Type 0}
    → ZCommands R
    → Time
    → Time
    → String
    → ℤ
    → Duration
    → R
    → Result SlidingDecision × R
unfolding decide window_start unix_milli itoa add64
allow commands now server key max window r =
    let (count, r') =
      commands.exec
        (pipeline commands server key (itoa (unix_milli (window_start now window))) (unix_milli now)
          (itoa now) (add64 window (pos nanoseconds)))
        r in
    (decide max count, r')
