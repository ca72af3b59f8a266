-- ===== src/ResponseCache/Tests.antt =====
-- The cache's theorem at concrete requests.
use ratelimiter_redis.Base.{ℕ, String, ◌≡◌, refl, [], ◌∷◌, arith}
use ratelimiter_redis.Base.Int.{◌+ℤ◌}
use ratelimiter_redis.Base.Clock.{seconds}
use ratelimiter_redis.Http.{Request, status, written}
use ratelimiter_redis.Http.Samples.{get_root, greets}
use ratelimiter_redis.ResponseCache.{
  cache_handler, set, ResponseCache, new_response_cache, default_cache_key_func,
}
use ratelimiter_redis.ResponseCache.Recorder.{recorded}
use ratelimiter_redis.ResponseCache.Replay.{Visit, serve, serve_all, repeats_replay}

abbrev plain : String → String
plain body = "text/plain; charset=utf-8"

abbrev visit : ℕ → Request → Visit
visit n r = record { at = record { first = seconds n; second = seconds n }; request = r }

abbrev post : Request
post = record get_root { method = "POST" }

abbrev before : ResponseCache × ℕ
before =
    (serve plain default_cache_key_func greets (visit 10 get_root)
      (new_response_cache (seconds 30), 0)).1

-- The state that the requests before the last one leave.
abbrev between : ResponseCache × ℕ
between =
    serve_all plain default_cache_key_func greets (visit 20 post ∷ visit 30 get_root ∷ []) before

repeats_replay_example :
    let (calls, end) = serve plain default_cache_key_func greets (visit 40 get_root) between in
    (status calls ≡ 200) × (written calls ≡ "hello") × (end ≡ between)
unfolding recorded cache_handler set serve_all ◌+ℤ◌
repeats_replay_example =
    repeats_replay plain default_cache_key_func greets (visit 10 get_root) (visit 40 get_root)
      (visit 20 post ∷ visit 30 get_root ∷ []) (new_response_cache (seconds 30)) 0 refl refl refl
      (omega arith, (omega arith, tt)) refl refl (omega arith)
