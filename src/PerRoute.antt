-- ===== src/PerRoute.antt =====
-- per_route_config.go. `New`, `WithStrategy`, `WithKeyFunc` and `WithLimitExceededHandler` as it calls them
-- are declared nowhere in the package, and neither is `Limiter`: they are arguments.
pub mod Routes
mod Tests
use ratelimiter_redis.Base.{String, Option, none, some, List, [], ◌∷◌, ◌++◌, str_eq, if◌then◌else◌}
use ratelimiter_redis.Base.Int.{ℤ}
use ratelimiter_redis.Base.Clock.{Duration}
use ratelimiter_redis.Base.GoMap.{GoMap, make, assign}
use ratelimiter_redis.Http.{Request, Handler}

pub record RouteConfig (S : Type 0) : Type 0 where
  pub limit : ℤ
  pub window : Duration
  pub strategy : String
  pub key_func : Option (Request → String)
  pub limit_exceeded_handler : Option (Handler S)

abbrev pub RouteConfigMap : Type 0 → Type 0
RouteConfigMap S = GoMap (RouteConfig S)

-- The functions that it calls, for options `O` and limiters `L` on one store.
pub record LimiterApi (O L S : Type 0) : Type 0 where
  pub with_strategy : String → O
  pub with_key_func : (Request → String) → O
  pub with_limit_exceeded_handler : Handler S → O
  pub new : ℤ → Duration → List O → L
  pub handler : L → Handler S → Handler S

module _ {O L S : Type 0} (api : LimiterApi O L S) where
  abbrev append_key_func : Option (Request → String) → List O → List O
  append_key_func none opts = opts
  append_key_func (some f) opts = opts ++ api.with_key_func f ∷ []

  abbrev append_handler : Option (Handler S) → List O → List O
  append_handler none opts = opts
  append_handler (some h) opts = opts ++ api.with_limit_exceeded_handler h ∷ []

  -- The options of one route.
  abbrev pub options : RouteConfig S → List O
  options cfg =
      let opts = (if str_eq cfg.strategy "" then [] else api.with_strategy cfg.strategy ∷ []) in
      append_handler cfg.limit_exceeded_handler (append_key_func cfg.key_func opts)

  -- The loop over the map, in the order in which it yields the entries.
  abbrev pub build : List (String × RouteConfig S) → GoMap L → GoMap L
  build [] limiters = limiters
  build ((route, cfg) ∷ es) limiters =
      build es (assign limiters route (api.new cfg.limit cfg.window (options cfg)))

  abbrev pub serve : Option L → Handler S → Handler S
  serve none next r s = next r s
  serve (some limiter) next r s = api.handler limiter next r s

  -- WithRouteConfigs, over the entries of the map in the order in which the loop meets them.
  unfoldable pub with_route_configs : List (String × RouteConfig S) → Handler S → Handler S
  with_route_configs es next r s = serve (build es make r.path) next r s
