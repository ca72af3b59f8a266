-- ===== src/RateLimiter.antt =====
-- ratelimiter.go: the middleware `New` over any strategy, a `Counter` on a state `C`.
mod Tests
pub mod Admission
use Prim.Native.String.{String}
use ratelimiter_redis.Base.{
  ℕ, zero, suc, ◌+◌, ◌-◌, ◌*◌, ◌/◌, ◌%◌, ◌≡◌, Bool, true, false, Option, none, some, Result, ok,
  err, List, [], ◌∷◌, ◌++◌, ltb, ◌==◌, if◌then◌else◌,
}
use ratelimiter_redis.Base.Int.{ℤ, pos, negsuc}
use ratelimiter_redis.Base.Clock.{Duration, nanoseconds}
use ratelimiter_redis.Base.Text.{itoa}
use ratelimiter_redis.Http.{Call, set_header, Request, Handler, http_error}

-- The quotient of a number of nanoseconds by those of a second, rounded to the nearest, ties to even.
abbrev round_seconds : ℕ → ℕ
round_seconds n =
    let q = n / nanoseconds in
    let rest = 2 * (n % nanoseconds) in
    if ltb rest nanoseconds
    then q
    else if ltb nanoseconds rest
    then q + 1
    else if q % 2 == 0
    then q
    else q + 1

-- The digits after a minus sign, which `%.0f` writes before 0 too.
abbrev minus_digits : ℕ → String
minus_digits zero = "-0"
minus_digits (suc k) = itoa (negsuc k)

-- fmt.Sprintf("%.0f", d.Seconds()), for durations whose seconds a float64 tells from a half second.
unfoldable pub format_seconds : Duration → String
unfolding itoa
format_seconds (pos n) = itoa (pos (round_seconds n))
format_seconds (negsuc n) = minus_digits (round_seconds (suc n))

-- What `Allow` returns without an error.
pub record Decision : Type 0 where
  pub allowed : Bool
  pub remaining : ℤ
  pub reset : Duration

abbrev pub Counter : Type 0 → Type 0
Counter C = String → C → Result Decision × C

pub record Options (C S : Type 0) : Type 0 where
  pub limiter : Counter C
  pub key_func : Option (Request → String)
  pub limit_exceeded_handler : Option (Handler S)

abbrev pub default_limit_exceeded_handler : {S : Type 0} → Handler S
default_limit_exceeded_handler r s = (http_error "rate limit exceeded" 429, s)

abbrev pub or_default {ℓ} : {A : Type ℓ} → A → Option A → A
or_default d none = d
or_default d (some a) = a

-- After `Allow`: it fails open, and otherwise sets two headers before it decides.
abbrev pub respond : {S : Type 0} → Handler S → Handler S → Result Decision → Handler S
respond exceeded next (err e) r s = next r s
respond exceeded next (ok d) r s =
    let (calls, s') = (if d.allowed then next r s else exceeded r s) in
    (
      set_header "X-RateLimit-Remaining" (itoa d.remaining)
          ∷ set_header "X-RateLimit-Reset" (format_seconds d.reset)
          ∷ calls,
      s',
    )

-- New; the first argument is `defaultKeyFunc`.
unfoldable pub new : {C S : Type 0} → (Request → String) → Options C S → Handler S → Handler (C × S)
new default_key_func opts next r (c, s) =
    let (result, c') = opts.limiter (or_default default_key_func opts.key_func r) c in
    let (calls, s') =
      respond (or_default default_limit_exceeded_handler opts.limit_exceeded_handler) next result r
        s in
    (calls, (c', s'))
