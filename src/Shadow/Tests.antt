-- ===== src/Shadow/Tests.antt =====
-- Shadow mode over a limiter that rejects.
use ratelimiter_redis.Base.{ℕ, ◌+◌, none, some, length, [], ◌∷◌}
use ratelimiter_redis.Http.{write}
use ratelimiter_redis.Http.Body.{BodyHandler}
use ratelimiter_redis.Http.Samples.{get_root, greets, blocks}
use ratelimiter_redis.Shadow.{Views, ShadowConfig, new_shadow_config, with_shadow_on_block}

-- The callback adds 100.
abbrev reporting : ShadowConfig ℕ
reporting = new_shadow_config (with_shadow_on_block (some (λ r key l. l + 100)) ∷ [])

-- It drains the body, and rejects.
abbrev drains : BodyHandler ℕ
drains r b l = blocks r l

abbrev reads : BodyHandler ℕ
reads r none s = greets r s
reads r (some b) s = (write "body" ∷ [], s + length b.bytes)

-- The limiter has read two bytes of the body, and the handler gets the third.
abbrev views : Views
views = record {
  limiter_request = get_root;
  limiter_body = some (record { bytes = 71 ∷ 72 ∷ []; failure = none });
  request = get_root;
  body = some (record { bytes = 73 ∷ []; failure = none });
  after = get_root;
}
