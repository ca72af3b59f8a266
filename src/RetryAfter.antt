-- ===== src/RetryAfter.antt =====
-- retry_after.go and retry_after_option.go: the writer that adds the header to responses 429. A
-- calculator is a function; it is called once for a response.
pub mod Client
mod Tests
use ratelimiter_redis.Base.{
  ℕ, suc, ◌/◌, String, Bool, true, false, not, ◌&&◌, Option, none, some, Result, ok, err, List, [],
  ◌∷◌, ◌==◌, if◌then◌else◌,
}
use ratelimiter_redis.Base.Int.{negsuc, ℤ, pos, sub_ℕ}
use ratelimiter_redis.Base.Clock.{Duration, nanoseconds}
use ratelimiter_redis.Base.Text.{itoa}
use ratelimiter_redis.Http.{Call, set_header, write_header, Request, Handler, Wrapper, relay}

abbrev pub RetryAfterCalculator : Type 0
RetryAfterCalculator = String → Duration → Result ℤ

-- int(d.Seconds()), for durations whose seconds a float64 tells from the next whole number.
abbrev pub whole_seconds : Duration → ℤ
whole_seconds (pos n) = pos (n / nanoseconds)
whole_seconds (negsuc n) = sub_ℕ 0 (suc n / nanoseconds)

abbrev pub fixed_retry_after : Duration → RetryAfterCalculator
fixed_retry_after window key w = ok (whole_seconds window)

abbrev or_window : Duration → Result ℤ → ℤ
or_window window (ok s) = s
or_window window (err e) = whole_seconds window

-- The value of the header.
abbrev pub retry_seconds : Option RetryAfterCalculator → String → Duration → ℤ
retry_seconds none key window = whole_seconds window
retry_seconds (some calc) key window = or_window window (calc key window)

-- WriteHeader of the writer, whose field `wrote` is the state; the other calls go to the embedded one.
abbrev pub retry_after_writer : ℤ → Wrapper Bool
retry_after_writer secs wrote (write_header c) =
    if c == 429 && not wrote
    then (true, set_header "Retry-After" (itoa secs) ∷ write_header c ∷ [])
    else (wrote, write_header c ∷ [])
retry_after_writer secs wrote c = (wrote, c ∷ [])

-- RetryAfterMiddleware
unfoldable pub retry_after_middleware :
    {S : Type 0} → Handler S → Option RetryAfterCalculator → Duration → Handler S
retry_after_middleware next calc window r s =
    let (calls, s') = next r s in
    ((relay (retry_after_writer (retry_seconds calc r.remote_addr window)) false calls).1, s')

abbrev calculator_or : Duration → Option RetryAfterCalculator → RetryAfterCalculator
calculator_or window none = fixed_retry_after window
calculator_or window (some calc) = calc

-- WithRetryAfter
abbrev pub with_retry_after :
    {S : Type 0} → Handler S → Duration → Option RetryAfterCalculator → Handler S
unfolding retry_after_middleware
with_retry_after next window calc =
    retry_after_middleware next (some (calculator_or window calc)) window
