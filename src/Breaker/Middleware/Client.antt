-- ===== src/Breaker/Middleware/Client.antt =====
-- What a client of `WithCircuitBreakerMiddleware` sees, and what the breaker learns of it.
use ratelimiter_redis.Base.{ℕ, ◌≡◌, refl, false, List, [], ◌∷◌, arith, ◌≢◌}
use ratelimiter_redis.Base.Int.{pos, ◌<ℤ◌, add64}
use ratelimiter_redis.Base.Clock.{Time, since}
use ratelimiter_redis.Http.{
  Call, set_header, add_header, del_header, write_header, write, Request, Handler, relay, status,
  sent_header, NoStatus, IsOrderly,
}
use ratelimiter_redis.Breaker.{
  circuit_closed, circuit_open, is_open, CircuitBreaker, current_state, record_blocked,
  record_allowed,
}
use ratelimiter_redis.Breaker.Middleware.{
  Guarded, circuit_breaker_writer, observe, with_circuit_breaker_middleware,
}

-- The code of the last call of `WriteHeader`.
abbrev pub last_code : ℕ → List Call → ℕ
last_code n [] = n
last_code n (write_header c ∷ cs) = last_code c cs
last_code n (_ ∷ cs) = last_code n cs

pub relay-circuit_breaker_writer :
    (n : ℕ) (cs : List Call)
    → relay circuit_breaker_writer (record { status_code = n }) cs
      ≡ (record { status_code = last_code n cs }, cs)
unfolding relay
relay-circuit_breaker_writer n [] = refl
relay-circuit_breaker_writer n (write_header c ∷ cs) = rw (relay-circuit_breaker_writer c cs)
relay-circuit_breaker_writer n (set_header k v ∷ cs) = rw (relay-circuit_breaker_writer n cs)
relay-circuit_breaker_writer n (add_header k v ∷ cs) = rw (relay-circuit_breaker_writer n cs)
relay-circuit_breaker_writer n (del_header k ∷ cs) = rw (relay-circuit_breaker_writer n cs)
relay-circuit_breaker_writer n (write b ∷ cs) = rw (relay-circuit_breaker_writer n cs)

-- Behind an orderly handler that code is what the client reads.
last_code_of_NoStatus : (n : ℕ) (cs : List Call) → NoStatus cs → last_code n cs ≡ n
last_code_of_NoStatus n [] h = refl
last_code_of_NoStatus n (write_header c ∷ cs) h = absurd h
last_code_of_NoStatus n (set_header k v ∷ cs) h = last_code_of_NoStatus n cs h
last_code_of_NoStatus n (add_header k v ∷ cs) h = last_code_of_NoStatus n cs h
last_code_of_NoStatus n (del_header k ∷ cs) h = last_code_of_NoStatus n cs h
last_code_of_NoStatus n (write b ∷ cs) h = last_code_of_NoStatus n cs h

pub last_code-status : (cs : List Call) → IsOrderly cs → last_code 200 cs ≡ status cs
last_code-status [] h = refl
last_code-status (write_header c ∷ cs) h = rw h.0 (last_code_of_NoStatus c cs h.1)
last_code-status (set_header k v ∷ cs) h = last_code-status cs h
last_code-status (add_header k v ∷ cs) h = last_code-status cs h
last_code-status (del_header k ∷ cs) h = last_code-status cs h
last_code-status (write b ∷ cs) h = last_code_of_NoStatus 200 cs h

stays_open :
    (cb : CircuitBreaker) (now : Time)
    → cb.state ≡ circuit_open
    → since now cb.last_failure_time <ℤ cb.reset_after
    → current_state now cb ≡ cb
unfolding current_state
stays_open cb now is_opened early = ground arith

observe_closes :
    (cb : CircuitBreaker) (now : Time) (code : ℕ)
    → is_open cb.state ≡ false
    → code ≢ 429
    → (observe now code cb).0.state ≡ circuit_closed
unfolding record_allowed
observe_closes cb now code h ne = ground arith

observe_counts :
    (cb : CircuitBreaker) (now : Time)
    → ((observe now 429 cb).0.failures ≡ add64 cb.failures (pos 1))
      × ((observe now 429 cb).0.last_failure_time ≡ now)
unfolding record_blocked
observe_counts cb now = ground arith

module _ {S : Type 0} (asked recorded : Time) (next : Handler S) (r : Request) (g : Guarded S) where
  -- While the circuit is open and less than `resetAfter` has passed since the last blocked request, the
  -- client reads 503 with Retry-After: 30, and neither the breaker nor the handler below is touched.
  pub open_rejects :
      g.breaker.state ≡ circuit_open
      → since asked g.breaker.last_failure_time <ℤ g.breaker.reset_after
      → let (calls, g') = with_circuit_breaker_middleware asked recorded next r g in
        (status calls ≡ 503) × (sent_header "Retry-After" [] calls ≡ "30" ∷ []) × (g' ≡ g)
  unfolding with_circuit_breaker_middleware sent_header
  open_rejects is_opened early =
      rw (stays_open g.breaker asked is_opened early) (rw is_opened (refl, refl, refl))

  -- Where the circuit is not open at the request, and the handler below is orderly in the statuses that it
  -- writes, the client gets what that handler wrote; the circuit is closed after a status other than 429,
  -- and a 429 adds a failure, at the time it is recorded.
  pub let_through_observes :
      is_open (current_state asked g.breaker).state ≡ false
      → IsOrderly (next r g.inner).0
      → let (written, s) = next r g.inner in
        let (calls, g') = with_circuit_breaker_middleware asked recorded next r g in
        (calls ≡ written)
        × (g'.inner ≡ s)
        × (status written ≢ 429 → g'.breaker.state ≡ circuit_closed)
        × (status written ≡ 429
            → (g'.breaker.failures ≡ add64 (current_state asked g.breaker).failures (pos 1))
              × (g'.breaker.last_failure_time ≡ recorded))
  unfolding with_circuit_breaker_middleware
  let_through_observes lets_in orderly =
      rw
        (
          lets_in,
          relay-circuit_breaker_writer 200 (next r g.inner).0,
          last_code-status (next r g.inner).0 orderly,
        )
        (refl, refl, observe_closes _ recorded _ lets_in, λ e. rw e (observe_counts _ recorded))
