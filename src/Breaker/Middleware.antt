-- ===== src/Breaker/Middleware.antt =====
-- circuit_breaker_middleware.go, and `WithCircuitBreaker` of circuit_breaker.go.
pub mod Client
use ratelimiter_redis.Base.{
  ℕ, ◌≡◌, refl, Bool, true, false, ◌&&◌, not, List, [], ◌∷◌, ◌++◌, arith, ◌==◌, if◌then◌else◌,
  String, ◌≢◌,
}
use ratelimiter_redis.Base.Int.{ltb_ℤ, leb_ℤ}
use ratelimiter_redis.Base.Clock.{Time, since}
use ratelimiter_redis.Http.{
  Call, set_header, add_header, del_header, write_header, write, Request, Handler, http_error,
  Wrapper, relay, status, sent_header, is_informational,
}
use ratelimiter_redis.Breaker.{
  circuit_closed, circuit_open, is_open, CircuitBreaker, Callback, current_state, record_blocked,
  record_allowed,
}

-- The breaker, the callbacks started so far, and the state of the handlers below.
pub record Guarded (S : Type 0) : Type 0 where
  pub breaker : CircuitBreaker
  pub started : List Callback
  pub inner : S

-- WithCircuitBreaker: `asked` is the reading of the clock in `State`.
pub with_circuit_breaker : {S : Type 0} → Time → Handler S → Handler (Guarded S)
with_circuit_breaker asked next r g =
    let cb = current_state asked g.breaker in
    if is_open cb.state
    then (http_error "service temporarily unavailable" 503, record g { breaker = cb })
    else (let (calls, s) = next r g.inner in (calls, record g { breaker = cb; inner = s }))

pub record CircuitBreakerResponseWriter : Type 0 where
  pub status_code : ℕ

abbrev pub circuit_breaker_writer : Wrapper CircuitBreakerResponseWriter
circuit_breaker_writer w (write_header code) =
    (record { status_code = code }, write_header code ∷ [])
circuit_breaker_writer w c = (w, c ∷ [])

-- The response is written: a 429 counts as blocked, any other status as allowed.
abbrev pub observe : Time → ℕ → CircuitBreaker → CircuitBreaker × List Callback
observe recorded code cb = if code == 429 then record_blocked recorded cb else record_allowed cb

-- WithCircuitBreakerMiddleware: `asked` is the reading of the clock in `State`, `recorded` that in
-- `RecordBlocked`.
pub with_circuit_breaker_middleware : {S : Type 0} → Time → Time → Handler S → Handler (Guarded S)
with_circuit_breaker_middleware asked recorded next r g =
    let cb = current_state asked g.breaker in
    if is_open cb.state
    then (
      set_header "Retry-After" "30" ∷ http_error "service temporarily unavailable" 503,
      record g { breaker = cb },
    )
    else (let (calls, s) = next r g.inner in
        let (w, out) = relay circuit_breaker_writer (record { status_code = 200 }) calls in
        let (cb', callbacks) = observe recorded w.status_code cb in
        (out, record { breaker = cb'; started = g.started ++ callbacks; inner = s }))
