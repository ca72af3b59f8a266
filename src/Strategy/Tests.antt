-- ===== src/Strategy/Tests.antt =====
-- The theorem on names, of a burst strategy without a burst.
use Prim.Native.String.{◌++◌}
use ratelimiter_redis.Base.{String, ◌≡◌, true, List}
use ratelimiter_redis.Base.Int.{pos, ◌≤ℤ◌}
use ratelimiter_redis.Base.Clock.{seconds}
use ratelimiter_redis.Strategy.{StrategyConfig, new_strategy, strategy_burst, burst_or}
use ratelimiter_redis.Strategy.Names.{is_ok, strategy_known}

abbrev show : String → List String → String
show s known = "unknown strategy " ++ s

abbrev one_a_second : StrategyConfig
one_a_second = record {
  strategy = strategy_burst;
  limit = pos 1;
  burst = pos 0;
  window = seconds 1;
}

strategy_known_test :
    (is_ok (new_strategy show one_a_second) ≡ true)
    × ((pos 1 ≡ pos 1) × (pos 1 ≤ℤ burst_or (pos 1) (pos 0)) × (seconds 1 ≡ seconds 1))
unfolding new_strategy
strategy_known_test = strategy_known show one_a_second
