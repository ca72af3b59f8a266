-- ===== src/Strategy.antt =====
-- strategy.go: the choice of a strategy by its name. A counter is told by its constructor and the
-- arguments that this gets, in their order, less the store.
pub mod Names
mod Tests
use Prim.Native.String.{◌++◌}
use ratelimiter_redis.Base.{
  String, Bool, true, false, Result, ok, err, List, [], ◌∷◌, if◌then◌else◌, str_eq,
}
use ratelimiter_redis.Base.Int.{ℤ, pos, leb_ℤ, ltb_ℤ}
use ratelimiter_redis.Base.Clock.{Duration}
use ratelimiter_redis.Leaky.{div64}

abbrev pub strategy_fixed_window : String
strategy_fixed_window = "fixed_window"

abbrev pub strategy_sliding_window : String
strategy_sliding_window = "sliding_window"

abbrev pub strategy_token_bucket : String
strategy_token_bucket = "token_bucket"

abbrev pub strategy_leaky_bucket : String
strategy_leaky_bucket = "leaky_bucket"

abbrev pub strategy_burst : String
strategy_burst = "burst"

abbrev pub valid_strategies : List String
valid_strategies =
    strategy_fixed_window ∷ strategy_sliding_window ∷ strategy_token_bucket ∷ strategy_leaky_bucket
    ∷ strategy_burst ∷ []

pub record StrategyConfig : Type 0 where
  pub strategy : String
  pub limit : ℤ
  pub burst : ℤ
  pub window : Duration

pub data Chosen : Type 0 where
  fixed_window sliding_window token_bucket leaky_bucket : ℤ → Duration → Chosen
  burst_counter : ℤ → ℤ → Duration → Chosen

-- The burst that is used.
unfoldable pub burst_or : ℤ → ℤ → ℤ
unfolding div64
burst_or limit burst =
    let half = div64 limit (pos 2) in
    if leb_ℤ burst (pos 0) then if ltb_ℤ half (pos 1) then pos 1 else half else burst

-- NewStrategy; `show` prints the name as %q does, and the list as %v.
unfoldable pub new_strategy : (String → List String → String) → StrategyConfig → Result Chosen
unfolding burst_or
new_strategy show cfg =
    if str_eq cfg.strategy strategy_fixed_window
    then ok (fixed_window cfg.limit cfg.window)
    else if str_eq cfg.strategy strategy_sliding_window
    then ok (sliding_window cfg.limit cfg.window)
    else if str_eq cfg.strategy ""
    then ok (sliding_window cfg.limit cfg.window)
    else if str_eq cfg.strategy strategy_token_bucket
    then ok (token_bucket cfg.limit cfg.window)
    else if str_eq cfg.strategy strategy_leaky_bucket
    then ok (leaky_bucket cfg.limit cfg.window)
    else if str_eq cfg.strategy strategy_burst
    then ok (burst_counter cfg.limit (burst_or cfg.limit cfg.burst) cfg.window)
    else err (show cfg.strategy valid_strategies)
