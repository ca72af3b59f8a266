-- ===== src/Breaker/Streak.antt =====
-- What `failures` and the state mean: the breaker is an abstract counter of consecutive blocked requests.
use ratelimiter_redis.Base.{ℕ, suc, ◌+◌, ◌≤◌, ◌<◌, ◌≡◌, refl, not, List, [], ◌∷◌, arith, length}
use ratelimiter_redis.Base.Int.{ℤ, pos, ◌≤ℤ◌, leb_ℤ, add64, max_int64}
use ratelimiter_redis.Breaker.{
  CircuitBreaker, circuit_closed, is_closed, current_state, record_blocked, record_allowed, Op,
  asks, blocks, allows, step, run,
}

-- The blocked requests since the last allowed one, `n` of them before the operations.
abbrev pub blocked_streak : ℕ → List Op → ℕ
blocked_streak n [] = n
blocked_streak n (asks t ∷ ops) = blocked_streak n ops
blocked_streak n (blocks t ∷ ops) = blocked_streak (suc n) ops
blocked_streak n (allows ∷ ops) = blocked_streak 0 ops

pub record Tracks (n : ℕ) (t : ℤ) (cb : CircuitBreaker) : Type 0 where
  pub counts : cb.failures ≡ pos n
  pub keeps : cb.threshold ≡ t
  pub trips : is_closed cb.state ≡ not (leb_ℤ t (pos n))

add64_one : (n : ℕ) → n < max_int64 → add64 (pos n) (pos 1) ≡ pos (suc n)
unfolding add64
add64_one n h = ground arith

asks-Tracks :
    (n : ℕ) (t : ℤ) (cb : CircuitBreaker) (now : ℤ)
    → Tracks n t cb
    → Tracks n t (current_state now cb)
unfolding current_state
asks-Tracks n t cb now h = ground arith

blocks-Tracks :
    (n : ℕ) (t : ℤ) (cb : CircuitBreaker) (now : ℤ)
    → n < max_int64
    → Tracks n t cb
    → Tracks (suc n) t (record_blocked now cb).0
unfolding record_blocked
blocks-Tracks n t cb now lt h = ground (arith, add64_one n)

allows-Tracks :
    (n : ℕ) (t : ℤ) (cb : CircuitBreaker)
    → pos 1 ≤ℤ t
    → Tracks n t cb
    → Tracks 0 t (record_allowed cb).0
unfolding record_allowed
allows-Tracks n t cb le h = ground arith

run-Tracks :
    (n : ℕ) (t : ℤ) (cb : CircuitBreaker) (ops : List Op)
    → pos 1 ≤ℤ t
    → n + length ops ≤ max_int64
    → Tracks n t cb
    → Tracks (blocked_streak n ops) t (run cb ops).0
unfolding run step
run-Tracks n t cb [] le room h = h
run-Tracks n t cb (asks now ∷ ops) le room h =
    run-Tracks n t _ ops le (omega arith) (asks-Tracks n t cb now h)
run-Tracks n t cb (blocks now ∷ ops) le room h =
    run-Tracks (suc n) t _ ops le (omega arith) (blocks-Tracks n t cb now (omega arith) h)
run-Tracks n t cb (allows ∷ ops) le room h =
    run-Tracks 0 t _ ops le (omega arith) (allows-Tracks n t cb le h)

-- From a closed breaker without failures whose threshold is at least 1, after any interleaving of fewer
-- than 2^63 operations, `failures` is the number of blocked requests since the last allowed one, and
-- the circuit is closed exactly if that number is below the threshold.
pub run_tracks_streak :
    (cb : CircuitBreaker) (ops : List Op)
    → cb.failures ≡ pos 0
    → cb.state ≡ circuit_closed
    → pos 1 ≤ℤ cb.threshold
    → length ops ≤ max_int64
    → ((run cb ops).0.failures ≡ pos (blocked_streak 0 ops))
      × (is_closed (run cb ops).0.state ≡ not (leb_ℤ cb.threshold (pos (blocked_streak 0 ops))))
run_tracks_streak cb ops none_yet closed le room =
    let last =
      run-Tracks 0 cb.threshold cb ops le (omega arith)
        (record { counts = none_yet; keeps = refl; trips = ground arith }) in
    (last.counts, last.trips)
