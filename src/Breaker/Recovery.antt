-- ===== src/Breaker/Recovery.antt =====
-- What a half-open circuit does.
use ratelimiter_redis.Base.{◌≡◌, refl, ◌≢◌, List, [], ◌∷◌, arith, All}
use ratelimiter_redis.Breaker.{
  circuit_half_open, CircuitBreaker, current_state, record_blocked, Op, asks, blocks, allows, step,
  run,
}

stays_half_open :
    (cb : CircuitBreaker) (o : Op)
    → cb.state ≡ circuit_half_open
    → o ≢ allows
    → ((step cb o).0.state ≡ circuit_half_open) × ((step cb o).1 ≡ [])
unfolding step current_state record_blocked
stays_half_open cb (asks now) h n = ground arith
stays_half_open cb (blocks now) h n = ground arith
stays_half_open cb allows h n = absurd (n refl)

-- A half-open circuit that records blocked requests alone, however many, stays half open: it never
-- opens again to give the backend another pause, and it calls nothing.
pub half_open_never_reopens :
    (cb : CircuitBreaker) (ops : List Op)
    → cb.state ≡ circuit_half_open
    → All (λ o. o ≢ allows) ops
    → ((run cb ops).0.state ≡ circuit_half_open) × ((run cb ops).1 ≡ [])
unfolding run
half_open_never_reopens cb [] h n = (h, refl)
half_open_never_reopens cb (o ∷ ops) h n =
    let one = stays_half_open cb o h n.0 in
    ground (arith, one, half_open_never_reopens (step cb o).0 ops one.0 n.1)
