-- ===== src/PerRoute/Routes.antt =====
-- Each route has its own limits, in whatever order the loop meets the entries of the map.
use ratelimiter_redis.Base.{
  String, Option, none, some, ◌≡◌, refl, ap, ◌∙◌, sym, inl, inr, Bool, false, ◌||◌, List, [], ◌∷◌,
  All, str_eq, eq_iff, Bool-cases, if◌then◌else◌,
}
use ratelimiter_redis.Base.GoMap.{GoMap, make, assign}
use ratelimiter_redis.Http.{Request, Handler}
use ratelimiter_redis.PerRoute.{
  RouteConfig, RouteConfigMap, LimiterApi, options, build, serve, with_route_configs,
}

abbrev pub has_entry : {S : Type 0} → String → List (String × RouteConfig S) → Bool
has_entry k [] = false
has_entry k ((route, cfg) ∷ es) = str_eq route k || has_entry k es

-- These are the entries of the map: each is one, and a key without one has no value.
abbrev pub Enumerates : {S : Type 0} → List (String × RouteConfig S) → RouteConfigMap S → Type 0
Enumerates es m =
    All (λ e. m e.0 ≡ some e.1) es × ((k : String) → has_entry k es ≡ false → m k ≡ none)

module _ {O L S : Type 0} (api : LimiterApi O L S) where
  -- The limiter for what a lookup finds.
  abbrev made : Option (RouteConfig S) → Option L
  made none = none
  made (some cfg) = some (api.new cfg.limit cfg.window (options api cfg))

  build_lem :
      (m : RouteConfigMap S) (es : List (String × RouteConfig S)) (acc : GoMap L) (k : String)
      → All (λ e. m e.0 ≡ some e.1) es
      → build api es acc k ≡ (if has_entry k es then made (m k) else acc k)
  build_lem m [] acc k h = refl
  build_lem m ((route, cfg) ∷ es) acc k (e, h) =
      let limiter = api.new cfg.limit cfg.window (options api cfg) in
      build_lem m es (assign acc route limiter) k h ∙ elim (Bool-cases (str_eq route k)) [
        | inl same ↦
            let here = ap made (sym (ap m ((eq_iff route k).0 same)) ∙ e) in
            rw same (elim (Bool-cases (has_entry k es)) [
              | inl known ↦ rw known refl
              | inr new ↦ rw new (sym here)
            ])
        | inr other ↦ rw other refl
      ]

  -- The middleware of one route: its limiter with its limit, window and options, or none.
  abbrev pub limited : Option (RouteConfig S) → Handler S → Handler S
  limited none next = next
  limited (some cfg) next = api.handler (api.new cfg.limit cfg.window (options api cfg)) next

  build-made :
      (m : RouteConfigMap S) (es : List (String × RouteConfig S)) (k : String)
      → Enumerates es m
      → build api es make k ≡ made (m k)
  build-made m es k (sound, complete) =
      build_lem m es make k sound
      ∙ elim (Bool-cases (has_entry k es)) [ inl e ↦ rw e refl | inr e ↦ rw (e, complete k e) refl ]

  serve-made :
      (found : Option (RouteConfig S)) (next : Handler S) (r : Request) (s : S)
      → serve api (made found) next r s ≡ limited found next r s
  serve-made none next r s = refl
  serve-made (some cfg) next r s = refl

  -- A request is served behind the limiter of the configuration that the map has for its path, and by
  -- the next handler alone if it has none, whatever the order in which the entries of the map are met.
  pub routes_apart :
      (m : RouteConfigMap S) (es : List (String × RouteConfig S)) (next : Handler S) (r : Request)
      (s : S)
      → Enumerates es m
      → with_route_configs api es next r s ≡ limited (m r.path) next r s
  unfolding with_route_configs
  routes_apart m es next r s entries =
      ap (λ found. serve api found next r s) (build-made m es r.path entries)
      ∙ serve-made (m r.path) next r s
