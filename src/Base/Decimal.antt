-- ===== src/Base/Decimal.antt =====
-- strconv.Atoi, and that it reads back what `itoa` writes.
use Prim.Native.Char.{Char, code}
use Prim.Native.String.{String, [], ◌∷◌, ◌++◌}
use text.Mathlib.TextLemmas.{append-nil, cons-append, nil-append, append_assoc}
use Prim.Native.Nat.{ℕ, zero, suc, ◌+◌, ◌-◌, ◌*◌, ◌/◌, ◌%◌, ◌≤◌, ◌<◌}
use mathlib.Core.Path.{◌∙◌, ap, sym, ◌≡◌, refl}
use native.Mathlib.Omega.{arith}
use mathlib.Core.Logic.{inl, inr}
use mathlib.Core.Bool.{Bool, true, false, ◌&&◌}
use mathlib.Core.Option.{some-injective, Option, none, some}
use Prim.Native.String.{String}
use ratelimiter_redis.Base.Tests.{ltb, leb, ◌==◌, if◌then◌else◌, Bool-cases}
use ratelimiter_redis.Base.Int.{ℤ, pos, negsuc, max_int64, InInt64}
use ratelimiter_redis.Base.Text.{ascii, decimal_digits, itoa}

abbrev pub is_digit : ℕ → Bool
is_digit n = leb 48 n && leb n 57

-- The number that `acc` becomes with the digits of a text behind it.
unfoldable pub read_digits : ℕ → String → Option ℕ
read_digits acc [] = some acc
read_digits acc (c ∷ s) =
    let rest = read_digits (acc * 10 + (code c - 48)) s in if is_digit (code c) then rest else none

abbrev pub positive_int64 : Option ℕ → Option ℤ
positive_int64 none = none
positive_int64 (some n) = if leb n max_int64 then some (pos n) else none

abbrev pub negative_int64 : Option ℕ → Option ℤ
negative_int64 none = none
negative_int64 (some zero) = some (pos 0)
negative_int64 (some (suc n)) = if leb n max_int64 then some (negsuc n) else none

-- At least one digit.
unfoldable pub read_number : String → Option ℕ
unfolding read_digits
read_number [] = none
read_number (c ∷ s) = read_digits 0 (c ∷ s)

-- strconv.Atoi; an error is `none`.
unfoldable pub atoi : String → Option ℤ
unfolding read_number
atoi [] = none
atoi (c ∷ s) =
    if code c == 45
    then negative_int64 (read_number s)
    else if code c == 43
    then positive_int64 (read_number s)
    else positive_int64 (read_number (c ∷ s))

-- A character before a text.
pub char_before : (c : Char) (t : String) → c ∷ t ≡ (c ∷ []) ++ t
char_before c t = sym (cons-append c [] t ∙ ap (◌∷◌ c) (nil-append t))

pub below_ten : (n : ℕ) → ltb n 10 ≡ true → n < 10
below_ten n h = ground (arith, h)

pub from_ten : (n : ℕ) → ltb n 10 ≡ false → 10 ≤ n
from_ten n h = ground (arith, h)

code-ascii : (d : ℕ) → d < 10 → code (ascii (48 + d)) ≡ 48 + d
unfolding ascii
code-ascii d h = omega arith

digit-is_digit : (d : ℕ) → d < 10 → is_digit (48 + d) ≡ true
digit-is_digit d h = ground arith

read_digit :
    (acc d : ℕ) (t : String)
    → d < 10
    → read_digits acc (ascii (48 + d) ∷ t) ≡ read_digits (acc * 10 + d) t
unfolding read_digits
read_digit acc d t h =
    rw (code-ascii d h, digit-is_digit d h) (ap (λ k. read_digits k t) (omega arith))

read_digits-decimal_digits :
    (f n : ℕ) (t : String) → n < f → read_digits 0 (decimal_digits f n ++ t) ≡ read_digits n t
unfolding decimal_digits
read_digits-decimal_digits zero n t h = let no : ⊥ = omega arith in elim no [ ]
read_digits-decimal_digits (suc f) n t h = elim (Bool-cases (ltb n 10)) [
  | inl e ↦ rw e (
      ap (read_digits 0) (sym (char_before _ t))
      ∙ read_digit 0 n t (below_ten n e)
      ∙ ap (λ k. read_digits k t) (omega arith))
  | inr e ↦
      let large = from_ten n e in
      let d = ascii (48 + n % 10) in
      rw e (
        ap (read_digits 0) (
          append_assoc (decimal_digits f (n / 10)) (d ∷ []) t
          ∙ ap (◌++◌ (decimal_digits f (n / 10))) (sym (char_before d t)))
        ∙ read_digits-decimal_digits f (n / 10) (d ∷ t) (omega arith)
        ∙ read_digit (n / 10) (n % 10) t (omega arith)
        ∙ ap (λ k. read_digits k t) (omega arith))
]

-- The digits of a number are a first digit and others.
abbrev pub StartsWithDigit : String → Type 0
StartsWithDigit s = (c : Char) × (t : String) × (s ≡ c ∷ t) × (is_digit (code c) ≡ true)

pub decimal_digits-StartsWithDigit : (f n : ℕ) → n < f → StartsWithDigit (decimal_digits f n)
unfolding decimal_digits
decimal_digits-StartsWithDigit zero n h = let no : ⊥ = omega arith in elim no [ ]
decimal_digits-StartsWithDigit (suc f) n h = elim (Bool-cases (ltb n 10)) [
  | inl e ↦
      (ascii (48 + n), [], rw e refl, let lt = below_ten n e in rw (code-ascii n lt) (ground arith))
  | inr e ↦
      let large = from_ten n e in
      let (c, t, eq, dig) = decimal_digits-StartsWithDigit f (n / 10) (omega arith) in
      (
        c,
        t ++ (ascii (48 + n % 10) ∷ []),
        rw e (ap (λ s. s ++ (ascii (48 + n % 10) ∷ [])) eq ∙ cons-append c t _),
        dig,
      )
]

pub no_sign : (m : ℕ) → is_digit m ≡ true → ((m == 45) ≡ false) × ((m == 43) ≡ false)
no_sign m h = (ground (arith, h), ground (arith, h))

pub minus_before : (s : String) → "-" ++ s ≡ ascii 45 ∷ s
unfolding ascii
minus_before s = sym (char_before (ascii 45) s)

atoi_digits :
    (s : String)
    → StartsWithDigit s
    → (atoi s ≡ positive_int64 (read_digits 0 s))
      × (atoi ("-" ++ s) ≡ negative_int64 (read_digits 0 s))
unfolding atoi read_number ascii
atoi_digits s (c, t, eq, h) =
    rw (minus_before s, eq, (no_sign (code c) h).0, (no_sign (code c) h).1) (refl, refl)

pub digits_back : (f n : ℕ) → n < f → read_digits 0 (decimal_digits f n) ≡ some n
unfolding read_digits
digits_back f n h =
    ap (read_digits 0) (sym (append-nil (decimal_digits f n))) ∙ read_digits-decimal_digits f n [] h

-- Atoi reads back what Itoa writes.
pub atoi-itoa : (a : ℤ) → InInt64 a → atoi (itoa a) ≡ some a
unfolding itoa
atoi-itoa (pos n) (h, h') =
    (atoi_digits (decimal_digits (suc n) n)
      (decimal_digits-StartsWithDigit (suc n) n (omega arith))).0
    ∙ ap positive_int64 (digits_back (suc n) n (omega arith))
    ∙ ground arith
atoi-itoa (negsuc n) (h, h') =
    (atoi_digits (decimal_digits (suc (suc n)) (suc n))
      (decimal_digits-StartsWithDigit (suc (suc n)) (suc n) (omega arith))).1
    ∙ ap negative_int64 (digits_back (suc (suc n)) (suc n) (omega arith))
    ∙ ground arith

pub itoa-injective : (a b : ℤ) → InInt64 a → InInt64 b → itoa a ≡ itoa b → a ≡ b
itoa-injective a b h h' e = some-injective a b (sym (atoi-itoa a h) ∙ ap atoi e ∙ atoi-itoa b h')
