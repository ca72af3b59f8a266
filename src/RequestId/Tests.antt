-- ===== src/RequestId/Tests.antt =====
-- The theorem on identifiers at a concrete request.
use ratelimiter_redis.Base.{◌≡◌, [], ◌∷◌}
use ratelimiter_redis.Http.{header_get, sent_header}
use ratelimiter_redis.Http.Samples.{get_root, greets}
use ratelimiter_redis.RequestId.{new_request_id_config, with_id, with_request_id}
use ratelimiter_redis.RequestId.Agreement.{ids_agree}

ids_agree_test :
    (header_get (with_id (new_request_id_config []) "c0ffee" get_root).header "X-Request-ID"
      ≡ "c0ffee")
    × (sent_header "X-Request-ID" [] (with_request_id "c0ffee" [] greets get_root 0).0
        ≡ "c0ffee" ∷ [])
unfolding sent_header header_get
ids_agree_test = ids_agree "c0ffee" [] greets get_root 0
