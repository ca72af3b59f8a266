-- ===== src/Store.antt =====
-- store.go: the interface of a backend, over its state `S`. The contexts are left out. A call takes the
-- readings of the clock that it makes, and returns its result and the next state.
use ratelimiter_redis.Base.{String, Bool, Result}
use ratelimiter_redis.Base.Int.{ℤ}
use ratelimiter_redis.Base.Clock.{Duration, Moment}

pub record Store (S : Type 0) : Type 0 where
  pub increment : Moment → String → Duration → S → Result ℤ × S
  pub get : Moment → String → S → Result ℤ × S
  pub set : Moment → String → ℤ → Duration → S → Result (Unit {0}) × S
  pub set_nx : Moment → String → ℤ → Duration → S → Result Bool × S
  pub ttl : Moment → String → S → Result Duration × S
  pub delete : String → S → Result (Unit {0}) × S
  pub ping : S → Result (Unit {0}) × S
