-- ===== src/Priority.antt =====
-- request_priority.go and request_priority_option.go, over any `Store`. Multipliers are float64, a
-- parameter; `windowTTL` is 60, which the store takes for nanoseconds.
pub mod Tiers
pub mod Header
mod Tests
use Prim.Native.String.{◌++◌}
use ratelimiter_redis.Base.{
  ℕ, String, Bool, Option, none, some, Result, ok, err, List, [], ◌∷◌, if◌then◌else◌, str_eq,
}
use ratelimiter_redis.Base.Int.{ℤ, pos, leb_ℤ, ltb_ℤ, sub64}
use ratelimiter_redis.Base.Clock.{Duration, Moment}
use ratelimiter_redis.Base.Decimal.{atoi}
use ratelimiter_redis.Base.Text.{itoa}
use ratelimiter_redis.Store.{Store}
use ratelimiter_redis.Http.{
  Call, set_header, write_header, Request, Handler, header_get, http_error,
}

abbrev pub PriorityLevel : Type 0
PriorityLevel = ℤ

abbrev pub priority_low : PriorityLevel
priority_low = pos 1

abbrev pub priority_normal : PriorityLevel
priority_normal = pos 5

abbrev pub priority_high : PriorityLevel
priority_high = pos 10

-- float64: the constants 2.0 and 0.5, int(float64(n) * m), m >= 1.0, and m > 0 && m <= 1.0.
pub record Multiplier (F : Type 0) : Type 0 where
  pub two : F
  pub half : F
  pub scale : ℤ → F → ℤ
  pub at_least_one : F → Bool
  pub in_unit : F → Bool

pub record PriorityConfig (F S : Type 0) : Type 0 where
  pub key_func : Request → PriorityLevel
  pub high_limit_mult : F
  pub low_limit_mult : F
  pub exceeded_handler : Handler S

abbrev level_of : Option ℤ → PriorityLevel
level_of none = priority_normal
level_of (some n) = if ltb_ℤ n (pos 1) then priority_normal else n

unfoldable pub default_priority_key_func : Request → PriorityLevel
unfolding atoi
default_priority_key_func r =
    let v = header_get r.header "X-Request-Priority" in
    if str_eq v "" then priority_normal else level_of (atoi v)

abbrev pub default_priority_exceeded_handler : {S : Type 0} → Handler S
default_priority_exceeded_handler r s = (http_error "Too Many Requests" 429, s)

abbrev pub window_ttl : Duration
window_ttl = pos 60

abbrev pub max : ℤ → ℤ → ℤ
max a b = if ltb_ℤ b a then a else b

abbrev pub PriorityOption : Type 0 → Type 0 → Type 0
PriorityOption F S = PriorityConfig F S → PriorityConfig F S

module _ {F S : Type 0} where
  -- It ignores nil.
  abbrev pub with_priority_key_func : Option (Request → PriorityLevel) → PriorityOption F S
  with_priority_key_func none c = c
  with_priority_key_func (some fn) c = record c { key_func = fn }

  abbrev pub with_high_limit_multiplier : Multiplier F → F → PriorityOption F S
  with_high_limit_multiplier float m c =
      if float.at_least_one m then record c { high_limit_mult = m } else c

  abbrev pub with_low_limit_multiplier : Multiplier F → F → PriorityOption F S
  with_low_limit_multiplier float m c =
      if float.in_unit m then record c { low_limit_mult = m } else c

  -- It ignores nil.
  abbrev pub with_priority_exceeded_handler : Option (Handler S) → PriorityOption F S
  with_priority_exceeded_handler none c = c
  with_priority_exceeded_handler (some h) c = record c { exceeded_handler = h }

  abbrev apply_options : List (PriorityOption F S) → PriorityConfig F S → PriorityConfig F S
  apply_options [] c = c
  apply_options (o ∷ opts) c = apply_options opts (o c)

  abbrev pub priority_config : Multiplier F → List (PriorityOption F S) → PriorityConfig F S
  priority_config float opts = apply_options opts (record {
    key_func = default_priority_key_func;
    high_limit_mult = float.two;
    low_limit_mult = float.half;
    exceeded_handler = default_priority_exceeded_handler;
  })

  abbrev tier_limit : Multiplier F → PriorityConfig F S → ℤ → PriorityLevel → ℤ
  tier_limit float cfg limit priority =
      if leb_ℤ priority_high priority
      then float.scale limit cfg.high_limit_mult
      else if leb_ℤ priority priority_low
      then float.scale limit cfg.low_limit_mult
      else limit

  unfoldable pub effective_limit : Multiplier F → PriorityConfig F S → ℤ → PriorityLevel → ℤ
  effective_limit float cfg limit priority =
      let n = tier_limit float cfg limit priority in if ltb_ℤ n (pos 1) then pos 1 else n

-- The count, which a failing store leaves at 0.
abbrev pub count_of : Result ℤ → ℤ
count_of (ok n) = n
count_of (err e) = pos 0

-- There is no handler below: a request within its limit is answered here.
abbrev pub answer : {S : Type 0} → Handler S → Bool → Handler S
answer exceeded too_many r s = if too_many then exceeded r s else (write_header 200 ∷ [], s)

-- The handler that `WithRequestPriority` returns.
unfoldable pub with_request_priority :
    {F R S : Type 0}
    → Multiplier F
    → ℤ
    → Store R
    → List (PriorityOption F S)
    → Moment
    → Handler (R × S)
unfolding effective_limit sub64 itoa
with_request_priority float limit store opts mo r (st, s) =
    let cfg = priority_config float opts in
    let effective = effective_limit float cfg limit (cfg.key_func r) in
    let (result, st') = store.increment mo ("priority:" ++ r.remote_addr) window_ttl st in
    let count = count_of result in
    let (calls, s') = answer cfg.exceeded_handler (ltb_ℤ effective count) r s in
    (
      set_header "X-RateLimit-Limit" (itoa effective)
          ∷ set_header "X-RateLimit-Remaining" (itoa (max (pos 0) (sub64 effective count)))
          ∷ calls,
      (st', s'),
    )
