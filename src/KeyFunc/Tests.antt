-- ===== src/KeyFunc/Tests.antt =====
-- The theorem on keys at a concrete request.
use ratelimiter_redis.Base.{String, Bool, true, false, Option, none, ◌≡◌, ◌⊎◌, [], ◌∷◌, str_eq}
use ratelimiter_redis.Http.{Request}
use ratelimiter_redis.Http.Samples.{get_root}
use ratelimiter_redis.KeyFunc.{ip_key_func}
use ratelimiter_redis.KeyFunc.Sources.{key_sources}

abbrev one_address : String → Bool
one_address s = str_eq s "192.0.2.7"

abbrev no_host : String → Option String
no_host s = none

abbrev forwarded : Request
forwarded = record get_root { header = ("X-Forwarded-For", "192.0.2.7, 10.0.0.2" ∷ []) ∷ [] }

key_sources_test :
    ((one_address (ip_key_func one_address no_host true forwarded) ≡ true)
      ⊎ (ip_key_func one_address no_host true forwarded ≡ "10.0.0.1:80"))
    × (ip_key_func one_address no_host false forwarded ≡ "10.0.0.1:80")
key_sources_test = key_sources one_address no_host true forwarded
