-- ===== src/HeaderRewrite/Tests.antt =====
-- A renamed header.
use text.Mathlib.TextLemmas.{cons≢nil}
use ratelimiter_redis.Base.{ℕ, suc, ◌≡◌, ◌≢◌, refl, some, List, [], ◌∷◌, inl}
use ratelimiter_redis.Http.{Call, Handler, set_header, write_header, sent_header, first_value}
use ratelimiter_redis.Http.Samples.{get_root}
use ratelimiter_redis.HeaderRewrite.{
  capture_call, captured, new_header_rewrite_config, with_limit_header, with_header_rewrite,
}
use ratelimiter_redis.HeaderRewrite.Originals.{originals_sent}

abbrev limited : Handler ℕ
limited r n = (set_header "X-RateLimit-Limit" "10" ∷ write_header 200 ∷ [], suc n)

originals_sent_example :
    (out : List Call) × ((with_header_rewrite
        (λ ns. ns)
        (new_header_rewrite_config (with_limit_header "X-Max" ∷ []))
        limited
        get_root
        0).0
      ≡ some out)
    × (first_value (sent_header "X-RateLimit-Limit" [] out) ≢ "")
unfolding captured capture_call
originals_sent_example =
    originals_sent (λ ns. ns) (new_header_rewrite_config (with_limit_header "X-Max" ∷ [])) limited
      get_root 0 "X-RateLimit-Limit" (inl (refl, λ nil. cons≢nil nil)) refl refl
