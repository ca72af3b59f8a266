-- ===== src/Enrichment/Tests.antt =====
-- The theorem on the latency, where the handler sets the header itself.
use ratelimiter_redis.Base.{ℕ, suc, ◌≡◌, refl, none, [], ◌∷◌}
use ratelimiter_redis.Base.Int.{pos}
use ratelimiter_redis.Http.{Handler, set_header, write_header, write, status, written, sent_header}
use ratelimiter_redis.Http.Samples.{get_root}
use ratelimiter_redis.Base.Text.{canonical}
use ratelimiter_redis.Adaptive.{adaptive_itoa}
use ratelimiter_redis.Enrichment.{with_request_enrichment}
use ratelimiter_redis.Enrichment.Stamp.{latency_reaches}

abbrev measures : Handler ℕ
measures r n =
    (set_header "X-Response-Latency-Ms" "0" ∷ write_header 201 ∷ write "made" ∷ [], suc n)

latency_reaches_example :
    (status (with_request_enrichment "now" (pos 12345678) none measures get_root 0).0 ≡ 201)
    × (written (with_request_enrichment "now" (pos 12345678) none measures get_root 0).0 ≡ "made")
    × (sent_header "X-Response-Latency-Ms" []
          (with_request_enrichment "now" (pos 12345678) none measures get_root 0).0
        ≡ "12" ∷ [])
unfolding canonical adaptive_itoa
latency_reaches_example =
    latency_reaches "now" (pos 12345678) none measures get_root 0 refl (refl, tt)
