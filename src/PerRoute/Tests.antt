-- ===== src/PerRoute/Tests.antt =====
-- The theorem on routes, over limiters that count requests and never forget them.
use ratelimiter_redis.Base.{
  arith, ℕ, suc, ◌≡◌, refl, String, Option, none, some, List, [], ◌∷◌, if◌then◌else◌,
}
use ratelimiter_redis.Base.Int.{ℤ, pos, ltb_ℤ}
use ratelimiter_redis.Base.Clock.{seconds}
use ratelimiter_redis.Base.GoMap.{make, assign}
use ratelimiter_redis.Http.{Handler, write, write_header, http_error}
use ratelimiter_redis.Http.Samples.{get_root}
use ratelimiter_redis.PerRoute.{RouteConfig, RouteConfigMap, LimiterApi, with_route_configs}
use ratelimiter_redis.PerRoute.Routes.{Enumerates, routes_apart}

-- The requests let through, and those that reached the handler below.
abbrev Seen : Type 0
Seen = ℕ × ℕ

abbrev handler_among : List (Option (Handler Seen)) → Handler Seen
handler_among [] r s = (http_error "too many" 429, s)
handler_among (none ∷ opts) r s = handler_among opts r s
handler_among (some h ∷ opts) r s = h r s

abbrev counting : LimiterApi (Option (Handler Seen)) (ℤ × List (Option (Handler Seen))) Seen
counting = record {
  with_strategy = λ name. none;
  with_key_func = λ f. none;
  with_limit_exceeded_handler = some;
  new = λ limit window opts. (limit, opts);
  handler =
      λ l next r s. if ltb_ℤ (pos s.0) l.0 then next r (suc s.0, s.1) else handler_among l.1 r s;
}

abbrev reaches : Handler Seen
reaches r s = (write "hello" ∷ [], (s.0, suc s.1))

abbrev slow : Handler Seen
slow r s = (write_header 503 ∷ [], s)

abbrev route : ℕ → RouteConfig Seen
route n = record {
  limit = pos n;
  window = seconds 60;
  strategy = "burst";
  key_func = none;
  limit_exceeded_handler = some slow;
}

abbrev two_routes : RouteConfigMap Seen
two_routes = assign (assign make "/login" (route 1)) "/" (route 2)

abbrev entries : List (String × RouteConfig Seen)
entries = ("/", route 2) ∷ ("/login", route 1) ∷ []

entries-Enumerates : Enumerates entries two_routes
entries-Enumerates = ((refl, (refl, tt)), λ k new. ground (arith, new))

routes_apart_test :
    with_route_configs counting entries reaches get_root (2, 0) ≡ (write_header 503 ∷ [], (2, 0))
routes_apart_test =
    routes_apart counting two_routes entries reaches get_root (2, 0) entries-Enumerates
