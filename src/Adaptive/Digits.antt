-- ===== src/Adaptive/Digits.antt =====
-- The private `itoa` against strconv's.
use Prim.Native.String.{[], ◌∷◌, ◌++◌}
use text.Mathlib.TextLemmas.{append-nil, append_assoc}
use ratelimiter_redis.Base.{
  true, ap, sym, ◌∙◌, ℕ, zero, suc, ◌+◌, ◌/◌, ◌%◌, ◌<◌, String, ◌≡◌, refl, arith, ltb, Bool-cases,
  inl, inr,
}
use ratelimiter_redis.Base.Int.{pos, negsuc}
use ratelimiter_redis.Base.Decimal.{char_before, below_ten, from_ten}
use ratelimiter_redis.Base.Text.{ascii, decimal_digits, itoa}
use ratelimiter_redis.Adaptive.{prepend_digits, adaptive_itoa}

prepend_nothing : (fuel : ℕ) (buf : String) → prepend_digits fuel 0 buf ≡ buf
unfolding prepend_digits
prepend_nothing zero buf = refl
prepend_nothing (suc fuel) buf = refl

small_digit : (n : ℕ) → n < 10 → n % 10 ≡ n
small_digit n h = omega arith

small_quotient : (n : ℕ) → n < 10 → n / 10 ≡ 0
small_quotient n h = omega arith

positive : (n : ℕ) → 0 < n → ltb 0 n ≡ true
positive n h = ground arith

prepend_digits-decimal_digits :
    (fuel n : ℕ) (buf : String)
    → 0 < n
    → n < fuel
    → prepend_digits fuel n buf ≡ decimal_digits fuel n ++ buf
unfolding prepend_digits decimal_digits
prepend_digits-decimal_digits zero n buf h h' = let no : ⊥ = omega arith in elim no [ ]
prepend_digits-decimal_digits (suc fuel) n buf h h' =
    rw (positive n h) (elim (Bool-cases (ltb n 10)) [
      | inl e ↦
          rw (e, small_quotient n (below_ten n e), small_digit n (below_ten n e))
            (prepend_nothing fuel (ascii (48 + n) ∷ buf) ∙ char_before (ascii (48 + n)) buf)
      | inr e ↦
          let large = from_ten n e in
          rw e (
            prepend_digits-decimal_digits fuel (n / 10) (ascii (48 + n % 10) ∷ buf) (omega arith)
              (omega arith)
            ∙ ap (◌++◌ (decimal_digits fuel (n / 10))) (char_before (ascii (48 + n % 10)) buf)
            ∙ sym (append_assoc (decimal_digits fuel (n / 10)) (ascii (48 + n % 10) ∷ []) buf))
    ])

-- The private `itoa` writes what strconv.Itoa does for numbers from 0 on, and nothing at all for
-- negative ones.
pub adaptive_itoa-itoa :
    (n : ℕ) → (adaptive_itoa (pos n) ≡ itoa (pos n)) × (adaptive_itoa (negsuc n) ≡ "")
unfolding adaptive_itoa itoa decimal_digits
adaptive_itoa-itoa zero = (refl, refl)
adaptive_itoa-itoa (suc n) = (
  prepend_digits-decimal_digits (suc (suc n)) (suc n) "" (omega arith) (omega arith)
      ∙ append-nil (decimal_digits (suc (suc n)) (suc n)),
  refl,
)
