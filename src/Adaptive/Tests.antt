-- ===== src/Adaptive/Tests.antt =====
-- The private `itoa` at concrete numbers, and the limit under a load.
use native.Mathlib.Nat.{div-le_of_le-mul, mul-le-mul_right}
use ratelimiter_redis.Base.{◌≡◌, refl, ℕ, some, ◌-◌, ◌*◌, ◌/◌, ◌≤◌, true, leb, ◌==◌, arith, [], ◌∷◌}
use ratelimiter_redis.Adaptive.Limiter.{
  LoadFloat, AdaptiveLimiter, new_adaptive_limiter, with_adaptive_limit, with_defaults,
}
use ratelimiter_redis.Adaptive.Bounds.{Monotone, limit_told}
use ratelimiter_redis.Http.{set_header, write}
use ratelimiter_redis.Http.Samples.{get_root, greets}
use ratelimiter_redis.Base.Int.{pos, negsuc, pos_part, add64, ◌+ℤ◌}
use ratelimiter_redis.Base.Text.{itoa}
use ratelimiter_redis.Adaptive.{adaptive_itoa}
use ratelimiter_redis.Adaptive.Digits.{adaptive_itoa-itoa}

adaptive_itoa-itoa_test : (adaptive_itoa (pos 405) ≡ "405") × (adaptive_itoa (negsuc 405) ≡ "")
unfolding itoa
adaptive_itoa-itoa_test = adaptive_itoa-itoa 405

-- Numbers in thousandths, from 0 on.
abbrev thousandths : LoadFloat ℕ
thousandths = record {
  eight_tenths = 800;
  four_tenths = 400;
  is_zero = λ a. a == 0;
  le = λ a b. leb a b;
  sub = λ a b. a - b;
  div = λ a b. a * 1000 / b;
  mul = λ a b. a * b / 1000;
  of_int = λ a. pos_part a * 1000;
  to_int = λ a. pos (a / 1000);
}

leb_le : (a b : ℕ) → leb a b ≡ true → a ≤ b
leb_le a b h = ground (arith, h)

le_leb : (a b : ℕ) → a ≤ b → leb a b ≡ true
le_leb a b h = ground arith

quotient_unit : (d e : ℕ) → d ≤ e → d * 1000 / e ≤ 1000
quotient_unit d e h =
    let scaled : d * 1000 ≤ e * 1000 = omega arith in div-le_of_le-mul e {m = d * 1000} scaled

product_unit : (q n : ℕ) → q ≤ 1000 → q * (n * 1000) / 1000 ≤ n * 1000
product_unit q n h =
    let scaled = mul-le-mul_right {m = q} {n = 1000} (n * 1000) h in
    div-le_of_le-mul 1000 {m = q * (n * 1000)} {n = n * 1000} scaled

abbrev Any : ℕ → Type 0
Any a = Unit {0}

monotone : Monotone thousandths Any
monotone = record {
  total = λ a b _ _ h. ground arith;
  le_trans = λ a b c h h'. ground (arith, h, h');
  sub_mono = λ a b c _ _ _ h. ground (arith, h);
  sub_from = λ a c _ _ h. ground arith;
  sub_positive = λ b c _ _ h. ground (arith, h);
  div_unit = λ a b c _ _ _ h h' h''. (
    ground arith,
    le_leb ((a - c) * 1000 / (b - c)) 1000
        (quotient_unit (a - c) (b - c) (leb_le (a - c) (b - c) h')),
  );
  mul_unit = λ q n _ h h'. (
    ground arith,
    le_leb (q * (n * 1000) / 1000) (n * 1000) (product_unit q n (leb_le q 1000 h')),
  );
  to_int_within = λ x n _ h h'. (x / 1000, refl, ground (arith, h'));
}

abbrev limiter : AdaptiveLimiter ℕ
limiter = new_adaptive_limiter thousandths (record {
  base_limit = pos 100;
  min_limit = pos 10;
  max_limit = pos 0;
  high_load_mark = 0;
  low_load_mark = 0;
})

limit_told_example :
    (l : ℕ) × (10 ≤ l)
    × (l ≤ 200)
    × (with_adaptive_limit thousandths (some 600) greets get_root (limiter, 0) ≡ (
      set_header "X-RateLimit-Adaptive-Limit" (itoa (pos l)) ∷ write "hello" ∷ [],
      (record limiter { current_limit = pos l }, 1),
    ))
unfolding with_defaults add64 ◌+ℤ◌
limit_told_example =
    limit_told thousandths Any monotone 10 200 (omega arith) (omega arith) 600 greets get_root
      limiter 0 (refl, refl, tt, tt) tt
