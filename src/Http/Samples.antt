-- ===== src/Http/Samples.antt =====
-- Requests and handlers for the tests.
use ratelimiter_redis.Base.{ℕ, suc, [], ◌∷◌}
use ratelimiter_redis.Base.Int.{pos}
use ratelimiter_redis.Http.{Request, Handler, write_header, write}

abbrev pub get_root : Request
get_root = record {
  method = "GET";
  path = "/";
  uri = "/";
  remote_addr = "10.0.0.1:80";
  header = [];
  content_length = pos 0;
}

-- It counts the requests that reach it.
abbrev pub greets : Handler ℕ
greets r n = (write "hello" ∷ [], suc n)

abbrev pub blocks : Handler ℕ
blocks r n = (write_header 429 ∷ write "slow down" ∷ [], suc n)

abbrev pub hints_and_blocks : Handler ℕ
hints_and_blocks r n = (write_header 103 ∷ write_header 429 ∷ [], suc n)
