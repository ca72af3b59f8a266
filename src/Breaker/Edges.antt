-- ===== src/Breaker/Edges.antt =====
-- The callbacks: which changes of state call them.
use ratelimiter_redis.Base.{◌≡◌, refl, ◌∙◌, true, List, [], ◌∷◌, ◌++◌, arith}
use ratelimiter_redis.Breaker.{
  CircuitState, circuit_closed, circuit_open, circuit_half_open, CircuitBreaker, Callback,
  trip_callback, reset_callback, current_state, record_blocked, record_allowed, Op, asks, blocks,
  allows, step, run,
}

-- The states of the breaker, before the operations and after each.
pub states : CircuitBreaker → List Op → List CircuitState
states cb [] = cb.state ∷ []
states cb (o ∷ ops) = cb.state ∷ states (step cb o).0 ops

-- A change from closed to open trips, and one from half open to closed resets. A change from open to
-- closed, by a request that was let through before the trip, calls nothing.
abbrev pub edge : CircuitState → CircuitState → List Callback
edge circuit_closed circuit_open = trip_callback ∷ []
edge circuit_half_open circuit_closed = reset_callback ∷ []
edge _ _ = []

abbrev pub edges : List CircuitState → List Callback
edges [] = []
edges (s ∷ []) = []
edges (s ∷ t ∷ rest) = edge s t ++ edges (t ∷ rest)

step-edge :
    (cb : CircuitBreaker) (o : Op)
    → cb.on_trip ≡ true
    → cb.on_reset ≡ true
    → (step cb o).1 ≡ edge cb.state (step cb o).0.state
unfolding step current_state record_blocked record_allowed
step-edge cb (asks now) t r = ground arith
step-edge cb (blocks now) t r = ground arith
step-edge cb allows t r = ground arith

step_keeps :
    (cb : CircuitBreaker) (o : Op)
    → ((step cb o).0.on_trip ≡ cb.on_trip) × ((step cb o).0.on_reset ≡ cb.on_reset)
unfolding step current_state record_blocked record_allowed
step_keeps cb (asks now) = ground arith
step_keeps cb (blocks now) = ground arith
step_keeps cb allows = ground arith

edges-states :
    (cb : CircuitBreaker) (s : CircuitState) (ops : List Op)
    → edges (s ∷ states cb ops) ≡ edge s cb.state ++ edges (states cb ops)
unfolding states
edges-states cb s [] = refl
edges-states cb s (o ∷ ops) = refl

-- With both callbacks set, a run starts them at exactly these changes of the state, in their order:
-- the trip callback whenever a closed circuit opens, the reset callback whenever a half-open one closes.
pub callbacks-edges :
    (cb : CircuitBreaker) (ops : List Op)
    → cb.on_trip ≡ true
    → cb.on_reset ≡ true
    → (run cb ops).1 ≡ edges (states cb ops)
unfolding run states
callbacks-edges cb [] t r = refl
callbacks-edges cb (o ∷ ops) t r =
    let kept = step_keeps cb o in
    let rest = callbacks-edges (step cb o).0 ops (kept.0 ∙ t) (kept.1 ∙ r) in
    ground (arith, step-edge cb o, rest, edges-states (step cb o).0 cb.state ops)
