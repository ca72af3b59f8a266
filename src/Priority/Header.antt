-- ===== src/Priority/Header.antt =====
-- The priority that a client asks for in the header.
use ratelimiter_redis.Base.{◌≡◌, refl, if◌then◌else◌}
use ratelimiter_redis.Base.Int.{ℤ, pos, ltb_ℤ, InInt64}
use ratelimiter_redis.Base.Decimal.{atoi-itoa}
use ratelimiter_redis.Base.Scan.{itoa_not_nil}
use ratelimiter_redis.Base.Trim.{not_nil}
use ratelimiter_redis.Base.Text.{itoa}
use ratelimiter_redis.Http.{Request, header_set}
use ratelimiter_redis.Http.Headers.{get-header_set}
use ratelimiter_redis.Priority.{default_priority_key_func, priority_normal}

-- A number that a client writes into the header with Itoa is the request's priority, if it is at least 1;
-- with any smaller one the priority is the normal one.
pub priority_read :
    (r : Request) (a : ℤ)
    → InInt64 a
    → default_priority_key_func
        (record r { header = header_set "X-Request-Priority" (itoa a) r.header })
      ≡ (if ltb_ℤ a (pos 1) then priority_normal else a)
unfolding default_priority_key_func
priority_read r a h =
    rw
      (
        get-header_set "X-Request-Priority" (itoa a) r.header,
        not_nil (itoa a) (itoa_not_nil a h),
        atoi-itoa a h,
      )
      refl
