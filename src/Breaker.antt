-- ===== src/Breaker.antt =====
-- circuit_breaker.go: the breaker, its options, and the operations that its mutex makes atomic. The
-- clock's reading is an argument. A callback runs in a goroutine of its own: an operation returns which
-- ones it starts.
pub mod Streak
pub mod Edges
pub mod Recovery
pub mod Middleware
mod Tests
use ratelimiter_redis.Base.{
  ℕ, zero, suc, ◌≡◌, Bool, true, false, not, ◌&&◌, ◌||◌, List, [], ◌∷◌, ◌++◌, if◌then◌else◌,
}
use ratelimiter_redis.Base.Int.{ℤ, pos, add64, leb_ℤ, ltb_ℤ}
use ratelimiter_redis.Base.Clock.{Time, Duration, seconds, zero_time, since}

pub data CircuitState : Type 0 where
  circuit_closed circuit_open circuit_half_open : CircuitState

abbrev pub is_open : CircuitState → Bool
is_open circuit_open = true
is_open _ = false

abbrev pub is_closed : CircuitState → Bool
is_closed circuit_closed = true
is_closed _ = false

abbrev pub is_half_open : CircuitState → Bool
is_half_open circuit_half_open = true
is_half_open _ = false

-- Of the two callbacks only whether they are set matters here.
pub record CircuitBreaker : Type 0 where
  pub state : CircuitState
  pub failures : ℤ
  pub threshold : ℤ
  pub reset_after : Duration
  pub last_failure_time : Time
  pub on_trip : Bool
  pub on_reset : Bool

abbrev pub CircuitBreakerOption : Type 0
CircuitBreakerOption = CircuitBreaker → CircuitBreaker

abbrev pub with_trip_threshold : ℤ → CircuitBreakerOption
with_trip_threshold n cb = record cb { threshold = n }

abbrev pub with_reset_after : Duration → CircuitBreakerOption
with_reset_after d cb = record cb { reset_after = d }

abbrev pub with_on_trip : Bool → CircuitBreakerOption
with_on_trip is_set cb = record cb { on_trip = is_set }

abbrev pub with_on_reset : Bool → CircuitBreakerOption
with_on_reset is_set cb = record cb { on_reset = is_set }

abbrev apply_options : CircuitBreaker → List CircuitBreakerOption → CircuitBreaker
apply_options cb [] = cb
apply_options cb (o ∷ opts) = apply_options (o cb) opts

-- NewCircuitBreaker: the fields that the literal leaves out have Go's zero values.
abbrev pub new_circuit_breaker : List CircuitBreakerOption → CircuitBreaker
new_circuit_breaker = apply_options (record {
  state = circuit_closed;
  failures = pos 0;
  threshold = pos 5;
  reset_after = seconds 30;
  last_failure_time = zero_time;
  on_trip = false;
  on_reset = false;
})

-- The callback that an operation starts in a goroutine.
pub data Callback : Type 0 where
  trip_callback reset_callback : Callback

-- The mutation of `currentState`; its result is the new state.
pub current_state : Time → CircuitBreaker → CircuitBreaker
current_state now cb =
    if is_open cb.state && leb_ℤ cb.reset_after (since now cb.last_failure_time)
    then record cb { state = circuit_half_open }
    else cb

pub record_blocked : Time → CircuitBreaker → CircuitBreaker × List Callback
record_blocked now cb =
    let counted = record cb { failures = add64 cb.failures (pos 1); last_failure_time = now } in
    if is_closed counted.state && leb_ℤ counted.threshold counted.failures
    then (
      record counted { state = circuit_open },
      if counted.on_trip then trip_callback ∷ [] else [],
    )
    else (counted, [])

pub record_allowed : CircuitBreaker → CircuitBreaker × List Callback
record_allowed cb =
    if is_half_open cb.state || ltb_ℤ (pos 0) cb.failures
    then (
      record cb { state = circuit_closed; failures = pos 0 },
      if is_half_open cb.state && cb.on_reset then reset_callback ∷ [] else [],
    )
    else (cb, [])

-- The operations in the order in which they take the mutex, whoever calls them.
pub data Op : Type 0 where
  asks : Time → Op
  blocks : Time → Op
  allows : Op

pub step : CircuitBreaker → Op → CircuitBreaker × List Callback
step cb (asks now) = (current_state now cb, [])
step cb (blocks now) = record_blocked now cb
step cb allows = record_allowed cb

pub run : CircuitBreaker → List Op → CircuitBreaker × List Callback
run cb [] = (cb, [])
run cb (o ∷ ops) =
    let (cb', out) = step cb o in let (last, rest) = run cb' ops in (last, out ++ rest)
