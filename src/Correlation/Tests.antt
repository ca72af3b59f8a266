-- ===== src/Correlation/Tests.antt =====
-- The theorem on correlation identifiers at a concrete request.
use ratelimiter_redis.Base.{◌≡◌, [], ◌∷◌, none}
use ratelimiter_redis.Base.Trim.{trim_space}
use ratelimiter_redis.Http.{Request, header_get, sent_header}
use ratelimiter_redis.Http.Samples.{get_root, greets}
use ratelimiter_redis.Correlation.{
  new_correlation_config, config_or, with_id, with_request_correlation,
}
use ratelimiter_redis.Correlation.Agreement.{correlation_agrees}

abbrev spaced : Request
spaced = record get_root { header = ("X-Correlation-Id", " c0ffee " ∷ []) ∷ [] }

correlation_agrees_test :
    (trim_space (header_get (with_id (config_or none) "new" spaced).header "X-Correlation-ID")
      ≡ "c0ffee")
    × (sent_header "X-Correlation-ID" [] (with_request_correlation "new" none greets spaced 0).0
        ≡ "c0ffee" ∷ [])
unfolding sent_header header_get new_correlation_config trim_space
correlation_agrees_test = correlation_agrees "new" none greets spaced 0
