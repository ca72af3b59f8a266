-- ===== src/Strategy/Names.antt =====
-- Which names are known, and what is made of them.
use ratelimiter_redis.Base.{
  String, ◌≡◌, Bool, true, false, ◌||◌, Result, ok, err, List, [], ◌∷◌, arith, str_eq,
}
use ratelimiter_redis.Base.Int.{ℤ, pos, ◌≤ℤ◌}
use ratelimiter_redis.Strategy.{
  StrategyConfig, Chosen, fixed_window, sliding_window, token_bucket, leaky_bucket, burst_counter,
  valid_strategies, new_strategy, burst_or,
}

abbrev pub listed : String → List String → Bool
listed s [] = false
listed s (t ∷ ts) = str_eq s t || listed s ts

abbrev pub is_ok : Result Chosen → Bool
is_ok (ok c) = true
is_ok (err e) = false

-- The counter has the limit and the window of the configuration, and a burst of at least 1.
abbrev pub Fits : StrategyConfig → Result Chosen → Type 0
Fits cfg (err e) = Unit {0}
Fits cfg (ok (fixed_window l w)) = (l ≡ cfg.limit) × (w ≡ cfg.window)
Fits cfg (ok (sliding_window l w)) = (l ≡ cfg.limit) × (w ≡ cfg.window)
Fits cfg (ok (token_bucket l w)) = (l ≡ cfg.limit) × (w ≡ cfg.window)
Fits cfg (ok (leaky_bucket l w)) = (l ≡ cfg.limit) × (w ≡ cfg.window)
Fits cfg (ok (burst_counter l b w)) = (l ≡ cfg.limit) × (pos 1 ≤ℤ b) × (w ≡ cfg.window)

burst_or-positive : (limit burst : ℤ) → pos 1 ≤ℤ burst_or limit burst
unfolding burst_or
burst_or-positive limit burst = ground arith

-- A name makes a counter exactly if it is empty or one of those listed, and any other an error; a counter
-- has the limit and the window that were asked for, and a burst of at least 1.
pub strategy_known :
    (show : String → List String → String) (cfg : StrategyConfig)
    → (is_ok (new_strategy show cfg)
        ≡ (str_eq cfg.strategy "" || listed cfg.strategy valid_strategies))
      × Fits cfg (new_strategy show cfg)
unfolding new_strategy
strategy_known show cfg = ground (arith, burst_or-positive cfg.limit cfg.burst)
