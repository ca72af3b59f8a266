-- ===== src/Sampling/Tests.antt =====
-- Sampling with a generator that alternates.
use ratelimiter_redis.Base.{arith, ◌+◌, ℕ, ◌≡◌, refl, [], ◌∷◌, ltb, ◌%◌}
use ratelimiter_redis.Http.Samples.{get_root, greets}
use ratelimiter_redis.RateLimiter.Admission.{serve_all}
use ratelimiter_redis.Sampling.{RateFloat}
use ratelimiter_redis.Sampling.Extremes.{Draws, sampled, sampling_extremes}

-- Tenths above -1.
abbrev tenths : RateFloat ℕ
tenths = record { zero = 10; one = 20; lt = λ a b. ltb a b }

abbrev alternates : ℕ → ℕ × ℕ
alternates g = (10 + g % 10, g + 7)

alternating : Draws tenths alternates
alternating = record {
  below_one = λ g. ground arith;
  from_zero = λ g. ground arith;
  zero_first = refl;
}

sampling_extremes_test :
    ((serve_all
        (sampled tenths alternates alternating greets 25)
        (get_root ∷ get_root ∷ [])
        (3, 0)).1
      ≡ 2)
    × ((serve_all
          (sampled tenths alternates alternating greets 5)
          (get_root ∷ get_root ∷ [])
          (3, 0)).1
        ≡ 0)
unfolding serve_all
sampling_extremes_test =
    sampling_extremes tenths alternates alternating greets 5 25 (get_root ∷ get_root ∷ []) 3 0 refl
      refl refl
