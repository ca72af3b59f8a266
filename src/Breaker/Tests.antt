-- ===== src/Breaker/Tests.antt =====
-- The breaker's theorems at concrete runs.
use ratelimiter_redis.Base.{◌≡◌, refl, ◌≢◌, true, not, List, [], ◌∷◌, ◌++◌, arith}
use ratelimiter_redis.Base.Int.{pos, leb_ℤ, add64}
use ratelimiter_redis.Base.Clock.{seconds, since}
use ratelimiter_redis.Http.{Request, Handler, write, status, sent_header}
use ratelimiter_redis.Breaker.{
  CircuitBreaker, circuit_closed, circuit_open, circuit_half_open, is_closed, with_trip_threshold,
  with_reset_after, with_on_trip, with_on_reset, new_circuit_breaker, Op, asks, blocks, allows, run,
  current_state,
}
use ratelimiter_redis.Breaker.Streak.{blocked_streak, run_tracks_streak}
use ratelimiter_redis.Breaker.Edges.{edges, states, callbacks-edges}
use ratelimiter_redis.Breaker.Recovery.{half_open_never_reopens}
use ratelimiter_redis.Breaker.Middleware.{Guarded, with_circuit_breaker_middleware}
use ratelimiter_redis.Breaker.Middleware.Client.{open_rejects, let_through_observes}

abbrev two_strikes : CircuitBreaker
two_strikes = new_circuit_breaker (
    with_trip_threshold (pos 2)
    ∷ with_reset_after (seconds 10)
    ∷ with_on_trip true
    ∷ with_on_reset true
    ∷ [])

abbrev history : List Op
history = blocks (seconds 1) ∷ blocks (seconds 2) ∷ asks (seconds 12) ∷ []

run_tracks_streak_example :
    ((run two_strikes history).0.failures ≡ pos (blocked_streak 0 history))
    × (is_closed (run two_strikes history).0.state
        ≡ not (leb_ℤ two_strikes.threshold (pos (blocked_streak 0 history))))
run_tracks_streak_example =
    run_tracks_streak two_strikes history refl refl (omega arith) (omega arith)

callbacks-edges_example :
    (run two_strikes (history ++ allows ∷ [])).1
    ≡ edges (states two_strikes (history ++ allows ∷ []))
callbacks-edges_example = callbacks-edges two_strikes (history ++ allows ∷ []) refl refl

abbrev probing : CircuitBreaker
probing = record two_strikes { state = circuit_half_open; failures = pos 2 }

half_open_never_reopens_example :
    ((run probing (blocks (seconds 20) ∷ asks (seconds 21) ∷ [])).0.state ≡ circuit_half_open)
    × ((run probing (blocks (seconds 20) ∷ asks (seconds 21) ∷ [])).1 ≡ [])
half_open_never_reopens_example =
    half_open_never_reopens probing (blocks (seconds 20) ∷ asks (seconds 21) ∷ []) refl
      ((λ e. cc), ((λ e. cc), tt))

abbrev tripped : Guarded (Unit {0})
tripped = record {
  breaker = record two_strikes {
    state = circuit_open;
    failures = pos 2;
    last_failure_time = seconds 2;
  };
  started = [];
  inner = tt;
}

abbrev request : Request
request = record {
  method = "GET";
  path = "/";
  uri = "/";
  remote_addr = "10.0.0.1:80";
  header = [];
  content_length = pos 0;
}

abbrev greets : Handler (Unit {0})
greets r s = (write "hello" ∷ [], s)

open_rejects_example :
    let (calls, g') =
      with_circuit_breaker_middleware (seconds 5) (seconds 6) greets request tripped in
    (status calls ≡ 503) × (sent_header "Retry-After" [] calls ≡ "30" ∷ []) × (g' ≡ tripped)
unfolding since
open_rejects_example =
    open_rejects (seconds 5) (seconds 6) greets request tripped refl (omega arith)

let_through_observes_example :
    let (calls, g') =
      with_circuit_breaker_middleware (seconds 12) (seconds 13) greets request tripped in
    (calls ≡ write "hello" ∷ [])
    × (g'.inner ≡ tt)
    × (status (write "hello" ∷ []) ≢ 429 → g'.breaker.state ≡ circuit_closed)
    × (status (write "hello" ∷ []) ≡ 429
        → (g'.breaker.failures
            ≡ add64 (current_state (seconds 12) tripped.breaker).failures (pos 1))
          × (g'.breaker.last_failure_time ≡ seconds 13))
unfolding since current_state
let_through_observes_example =
    let_through_observes (seconds 12) (seconds 13) greets request tripped refl tt
