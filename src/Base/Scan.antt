-- ===== src/Base/Scan.antt =====
-- fmt.Sscanf(v, "%d", &n), and that it reads back what `itoa` writes.
use Prim.Native.Char.{Char, code}
use Prim.Native.String.{String, [], ◌∷◌, ◌++◌}
use Prim.Native.Nat.{ℕ, suc, ◌+◌, ◌-◌, ◌*◌}
use mathlib.Core.Path.{◌∙◌, ap, sym, ◌≡◌, refl}
use mathlib.Core.Logic.{inl, inr, ◌≢◌}
use mathlib.Core.Bool.{true, false}
use mathlib.Core.Option.{some-injective, none-ne-some, Option, none, some}
use native.Mathlib.Omega.{arith}
use ratelimiter_redis.Base.Tests.{◌==◌, if◌then◌else◌, Bool-cases}
use ratelimiter_redis.Base.Int.{ℤ, pos, negsuc, InInt64}
use ratelimiter_redis.Base.Text.{ascii, itoa, decimal_digits}
use ratelimiter_redis.Base.Decimal.{
  StartsWithDigit, decimal_digits-StartsWithDigit, digits_back, no_sign, minus_before, is_digit,
  read_digits, positive_int64, negative_int64,
}
use ratelimiter_redis.Base.Trim.{is_space, trim_left}

-- The digits in front of a text, behind those that make `acc`.
unfoldable pub scan_digits : ℕ → String → ℕ
scan_digits acc [] = acc
scan_digits acc (c ∷ s) =
    let rest = scan_digits (acc * 10 + (code c - 48)) s in if is_digit (code c) then rest else acc

-- At least one digit.
unfoldable pub scan_number : String → Option ℕ
unfolding scan_digits
scan_number [] = none
scan_number (c ∷ s) = let n = scan_digits 0 (c ∷ s) in if is_digit (code c) then some n else none

abbrev scan_signed : String → Option ℤ
unfolding scan_number
scan_signed [] = none
scan_signed (c ∷ s) =
    if code c == 45
    then negative_int64 (scan_number s)
    else if code c == 43
    then positive_int64 (scan_number s)
    else positive_int64 (scan_number (c ∷ s))

-- White space in front is skipped, and what follows the number is not looked at.
unfoldable pub scan_int : String → Option ℤ
unfolding scan_signed trim_left
scan_int s = scan_signed (trim_left is_space s)

scan-read_digits : (s : String) (acc n : ℕ) → read_digits acc s ≡ some n → scan_digits acc s ≡ n
unfolding read_digits scan_digits
scan-read_digits [] acc n h = some-injective acc n h
scan-read_digits (c ∷ s) acc n h = elim (Bool-cases (is_digit (code c))) [
  | inl e ↦ rw e (scan-read_digits s (acc * 10 + (code c - 48)) n (simp e at h))
  | inr e ↦ let no : ◌≡◌ {A = Option ℕ} none (some n) = simp e at h in elim (none-ne-some n no) [ ]
]

digit_not_space : (c : Char) → is_digit (code c) ≡ true → is_space c ≡ false
digit_not_space c h = ground (arith, h)

skip_minus : (s : String) → trim_left is_space ("-" ++ s) ≡ ascii 45 ∷ s
unfolding trim_left ascii
skip_minus s = rw (minus_before s) refl

scan_digit_first :
    (s : String)
    → StartsWithDigit s
    → (scan_int s ≡ positive_int64 (some (scan_digits 0 s)))
      × (scan_int ("-" ++ s) ≡ negative_int64 (some (scan_digits 0 s)))
unfolding scan_int trim_left scan_number ascii
scan_digit_first s (c, t, eq, h) = (
  rw (eq, digit_not_space c h, (no_sign (code c) h).0, (no_sign (code c) h).1, h) refl,
  rw (skip_minus s, eq, h) refl,
)

-- Sscanf reads back what Itoa writes.
pub scan_int-itoa : (a : ℤ) → InInt64 a → scan_int (itoa a) ≡ some a
unfolding itoa
scan_int-itoa (pos n) (h, h') =
    (scan_digit_first (decimal_digits (suc n) n)
      (decimal_digits-StartsWithDigit (suc n) n (omega arith))).0
    ∙ ap (λ k. positive_int64 (some k))
        (scan-read_digits (decimal_digits (suc n) n) 0 n (digits_back (suc n) n (omega arith)))
    ∙ ground arith
scan_int-itoa (negsuc n) (h, h') =
    (scan_digit_first (decimal_digits (suc (suc n)) (suc n))
      (decimal_digits-StartsWithDigit (suc (suc n)) (suc n) (omega arith))).1
    ∙ ap (λ k. negative_int64 (some k))
        (scan-read_digits (decimal_digits (suc (suc n)) (suc n)) 0 (suc n)
          (digits_back (suc (suc n)) (suc n) (omega arith)))
    ∙ ground arith

pub itoa_not_nil : (a : ℤ) → InInt64 a → itoa a ≢ ""
unfolding scan_int trim_left
itoa_not_nil a h e = none-ne-some a (sym (ap scan_int e) ∙ scan_int-itoa a h)
