-- ===== src/SizeLimit/Tests.antt =====
-- The theorem on sizes, where a request does not declare the length of its body.
use ratelimiter_redis.Base.{ℕ, ◌≡◌, refl, ◌⊎◌, none, some, [], ◌∷◌, length}
use ratelimiter_redis.Base.Int.{negsuc, pos, ◌<ℤ◌, ◌≤ℤ◌}
use ratelimiter_redis.Http.{Request, write}
use ratelimiter_redis.Http.Body.{Body, BodyHandler}
use ratelimiter_redis.Http.Samples.{get_root}
use ratelimiter_redis.SizeLimit.{with_request_size_limit, default_size_limit_exceeded_handler}
use ratelimiter_redis.SizeLimit.Bounded.{Passes, size_limited}

abbrev counts : BodyHandler ℕ
counts r none n = (write "none" ∷ [], n)
counts r (some b) n = (write "some" ∷ [], length b.bytes)

abbrev chunked : Request
chunked = record get_root { content_length = negsuc 0 }

abbrev three_bytes : Body
three_bytes = record { bytes = 71 ∷ 72 ∷ 73 ∷ []; failure = none }

size_limited_test :
    ((pos 2 <ℤ negsuc 0)
      × (with_request_size_limit (pos 2) [] counts chunked (some three_bytes) 7
          ≡ default_size_limit_exceeded_handler chunked (some three_bytes) 7))
    ⊎ ((negsuc 0 ≤ℤ pos 2)
        × (b' : Body) × Passes 2 three_bytes b'
        × (with_request_size_limit (pos 2) [] counts chunked (some three_bytes) 7
            ≡ counts chunked (some b') 7))
size_limited_test = size_limited (pos 2) [] counts 1 chunked three_bytes 7 refl
