-- ===== src/Adaptive.antt =====
-- adaptive_limit.go: the private `itoa`. The loop appends in front of `buf`; its fuel is above the number.
pub mod Digits
pub mod Limiter
pub mod Bounds
mod Tests
use Prim.Native.String.{◌∷◌}
use ratelimiter_redis.Base.{ℕ, zero, suc, ◌+◌, ◌/◌, ◌%◌, String, if◌then◌else◌, ltb}
use ratelimiter_redis.Base.Int.{negsuc, ℤ, pos}
use ratelimiter_redis.Base.Text.{ascii}

-- for n > 0 { buf = append([]byte{byte('0' + n%10)}, buf...); n /= 10 }
unfoldable pub prepend_digits : ℕ → ℕ → String → String
unfolding ascii
prepend_digits zero n buf = buf
prepend_digits (suc fuel) n buf =
    let rest = prepend_digits fuel (n / 10) (ascii (48 + n % 10) ∷ buf) in
    if ltb 0 n then rest else buf

unfoldable pub adaptive_itoa : ℤ → String
unfolding prepend_digits
adaptive_itoa (pos zero) = "0"
adaptive_itoa (pos (suc n)) = prepend_digits (suc (suc n)) (suc n) ""
adaptive_itoa (negsuc n) = ""
