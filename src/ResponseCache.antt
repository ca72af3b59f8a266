-- ===== src/ResponseCache.antt =====
-- response_cache.go and response_cache_option.go: the cache, and the middleware on it. The entries that
-- the pointers in the map lead to are never changed once they are in it.
pub mod Recorder
pub mod Replay
mod Tests
use Prim.Native.String.{◌++◌}
use mathlib.Core.List.{◌++◌ as ◌+++◌}
use ratelimiter_redis.Base.{
  ℕ, String, Bool, true, false, Option, none, some, List, [], ◌∷◌, ◌==◌, if◌then◌else◌, str_eq,
}
use ratelimiter_redis.Base.Int.{pos, ◌+ℤ◌}
use ratelimiter_redis.Base.Clock.{Time, Duration, Moment, seconds, after, zero_time}
use ratelimiter_redis.Base.GoMap.{GoMap, make, assign}
use ratelimiter_redis.Base.GoMap
use ratelimiter_redis.Http.{
  Call, set_header, add_header, write_header, write, Header, Request, Handler, Pointer, null,
  target,
}
use ratelimiter_redis.ResponseCache.Recorder.{ResponseRecorder, recorded, result_header}

pub record CacheEntry : Type 0 where
  pub status_code : ℕ
  pub header : Header
  pub body : String
  pub expires_at : Time

pub record ResponseCache : Type 0 where
  pub entries : GoMap CacheEntry
  pub ttl : Duration

abbrev pub new_response_cache : Duration → ResponseCache
new_response_cache ttl = record { entries = make; ttl = ttl }

abbrev pub valid : Time → Option CacheEntry → Option CacheEntry
valid now none = none
valid now (some entry) = if after now entry.expires_at then none else some entry

-- Get
abbrev pub get : Time → String → ResponseCache → Option CacheEntry
get now key c = valid now (c.entries key)

-- Set
unfoldable pub set : Time → String → CacheEntry → ResponseCache → ResponseCache
unfolding ◌+ℤ◌
set now key entry c = record c {
  entries = assign c.entries key (record entry { expires_at = now +ℤ c.ttl });
}

-- Delete
abbrev pub delete : String → ResponseCache → ResponseCache
delete key c = record c { entries = GoMap.delete c.entries key }

abbrev pub default_cache_key_func : Request → String
default_cache_key_func r = r.method ++ ":" ++ r.uri

-- for _, v := range vals { w.Header().Add(k, v) }
abbrev pub add_values : String → List String → List Call → List Call
add_values k [] rest = rest
add_values k (v ∷ vs) rest = add_header k v ∷ add_values k vs rest

-- The same for each name of a header, and `rest` after that.
abbrev pub add_headers : Header → List Call → List Call
add_headers [] rest = rest
add_headers ((k, vs) ∷ h) rest = add_values k vs (add_headers h rest)

-- The calls that answer a hit.
abbrev pub replay : CacheEntry → List Call
replay entry =
    add_headers entry.header
      (set_header "X-Cache" "HIT" ∷ write_header entry.status_code ∷ write entry.body ∷ [])

-- Those that answer a miss, from what the handler below did to the recorder.
abbrev pub forward : ResponseRecorder → List Call
forward rec =
    set_header "X-Cache" "MISS"
    ∷ add_headers rec.header_map (write_header rec.code ∷ write rec.body ∷ [])

abbrev pub entry_of : ResponseRecorder → CacheEntry
entry_of rec = record {
  status_code = rec.code;
  header = result_header rec;
  body = rec.body;
  expires_at = zero_time;
}

-- A GET request, after `Get`; `now` is `Set`'s reading of the clock. The first argument is
-- http.DetectContentType, which the recorder calls.
abbrev pub serve_get :
    {S : Type 0}
    → (String → String)
    → Time
    → String
    → Handler S
    → Option CacheEntry
    → Handler (ResponseCache × S)
serve_get detect now key next (some entry) r (c, s) = (replay entry, (c, s))
serve_get detect now key next none r (c, s) =
    let (calls, s') = next r s in
    let rec = recorded detect calls in
    (forward rec, ((if rec.code == 200 then set now key (entry_of rec) c else c), s'))

-- The handler that `WithResponseCache` returns.
unfoldable pub cache_handler :
    {S : Type 0}
    → (String → String)
    → Moment
    → (Request → String)
    → Handler S
    → Handler (ResponseCache × S)
cache_handler detect mo key_func next r (c, s) =
    let (calls, s') = next r s in
    if str_eq r.method "GET"
    then serve_get detect mo.second (key_func r) next (get mo.first (key_func r) c) r (c, s)
    else (calls, (c, s'))

abbrev pub key_or : Option (Request → String) → Request → String
key_or none = default_cache_key_func
key_or (some f) = f

-- WithResponseCache: it panics where the cache is nil.
abbrev pub with_response_cache :
    {S : Type 0}
    → (String → String)
    → Moment
    → Pointer
    → Option (Request → String)
    → Option (Handler S → Handler (ResponseCache × S))
with_response_cache detect mo null key_func = none
with_response_cache detect mo target key_func =
    some (λ next. cache_handler detect mo (key_or key_func) next)

pub record ResponseCacheConfig : Type 0 where
  pub config_ttl : Duration
  pub key_func : Request → String

abbrev pub CacheOption : Type 0
CacheOption = ResponseCacheConfig → ResponseCacheConfig

abbrev pub with_cache_ttl : Duration → CacheOption
with_cache_ttl ttl c = record c { config_ttl = ttl }

abbrev pub with_cache_key_func : (Request → String) → CacheOption
with_cache_key_func fn c = record c { key_func = fn }

abbrev apply_options : List CacheOption → ResponseCacheConfig → ResponseCacheConfig
apply_options [] cfg = cfg
apply_options (o ∷ opts) cfg = apply_options opts (o cfg)

-- NewResponseCacheWithOptions
abbrev pub new_response_cache_with_options : List CacheOption → ResponseCache × (Request → String)
new_response_cache_with_options opts =
    let cfg =
      apply_options opts (record { config_ttl = seconds 30; key_func = default_cache_key_func }) in
    (new_response_cache cfg.config_ttl, cfg.key_func)
