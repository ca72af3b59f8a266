-- ===== src/Base/Int.antt =====
-- Go's signed integers: ℤ over the native numbers, with the wrap-around of `int64` (and of `int`, which
-- has 64 bits on the platforms that the program runs on).
use Prim.Native.Nat.{◌/◌, ◌*◌, ℕ, suc, ◌+◌, ◌-◌, ◌%◌, ◌^◌, ◌≤◌, ◌<◌}
use mathlib.Core.Path.{◌∙◌, ap, sym, ◌≡◌, refl}
use mathlib.Core.Logic.{◌⊎◌, inl, inr}
use mathlib.Core.Bool.{Bool}
use native.Mathlib.Omega.{arith}
use ratelimiter_redis.Base.Tests.{Bool-cases, ltb, leb, ◌==◌, if◌then◌else◌}

-- `negsuc n` is -(n + 1), the bitwise complement of n.
pub data ℤ : Type 0 where
  pos : ℕ → ℤ
  negsuc : ℕ → ℤ

abbrev pub pos_part : ℤ → ℕ
pos_part (pos n) = n
pos_part (negsuc n) = 0

abbrev pub neg_part : ℤ → ℕ
neg_part (pos n) = 0
neg_part (negsuc n) = suc n

-- a - b, as an integer.
abbrev pub sub_ℕ : ℕ → ℕ → ℤ
sub_ℕ a b = if leb b a then pos (a - b) else negsuc (b - a - 1)

infixl 65 ◌+ℤ◌ ◌-ℤ◌
infix 50 ◌≤ℤ◌ ◌<ℤ◌
unfoldable pub ◌+ℤ◌ : ℤ → ℤ → ℤ
a +ℤ b = sub_ℕ (pos_part a + pos_part b) (neg_part a + neg_part b)

unfoldable pub ◌-ℤ◌ : ℤ → ℤ → ℤ
a -ℤ b = sub_ℕ (pos_part a + neg_part b) (neg_part a + pos_part b)

abbrev pub ◌≤ℤ◌ : ℤ → ℤ → Type 0
a ≤ℤ b = pos_part a + neg_part b ≤ pos_part b + neg_part a

abbrev pub ◌<ℤ◌ : ℤ → ℤ → Type 0
a <ℤ b = pos_part a + neg_part b < pos_part b + neg_part a

abbrev pub ltb_ℤ : ℤ → ℤ → Bool
ltb_ℤ a b = ltb (pos_part a + neg_part b) (pos_part b + neg_part a)

abbrev pub leb_ℤ : ℤ → ℤ → Bool
leb_ℤ a b = leb (pos_part a + neg_part b) (pos_part b + neg_part a)

abbrev pub eqb_ℤ : ℤ → ℤ → Bool
eqb_ℤ a b = pos_part a + neg_part b == pos_part b + neg_part a

pub +ℤ_parts :
    (a b : ℤ)
    → pos_part (a +ℤ b) + neg_part a + neg_part b ≡ neg_part (a +ℤ b) + pos_part a + pos_part b
unfolding ◌+ℤ◌
+ℤ_parts a b = ground arith

pub -ℤ_parts :
    (a b : ℤ)
    → pos_part (a -ℤ b) + neg_part a + pos_part b ≡ neg_part (a -ℤ b) + pos_part a + neg_part b
unfolding ◌-ℤ◌
-ℤ_parts a b = ground arith

pub eq_of_parts : (a b : ℤ) → pos_part a + neg_part b ≡ pos_part b + neg_part a → a ≡ b
eq_of_parts a b h = ground arith

-- Of two's complement: an integer has at most one sign.
pub one_sign : (a : ℤ) → (pos_part a ≡ 0) ⊎ (neg_part a ≡ 0)
one_sign (pos n) = inr refl
one_sign (negsuc n) = inl refl

pub ruleset int_laws = (arith, +ℤ_parts, -ℤ_parts, eq_of_parts)

abbrev pub max_int64 : ℕ
max_int64 = 2 ^ 63 - 1

-- The value that an `int64` register holds after an operation whose exact result is the argument.
unfoldable pub wrap64 : ℤ → ℤ
wrap64 (pos n) = let m = n % 2 ^ 64 in if ltb m (2 ^ 63) then pos m else negsuc (2 ^ 64 - 1 - m)
wrap64 (negsuc n) = let m = n % 2 ^ 64 in if ltb m (2 ^ 63) then negsuc m else pos (2 ^ 64 - 1 - m)

unfoldable pub add64 : ℤ → ℤ → ℤ
unfolding wrap64 ◌+ℤ◌
add64 a b = wrap64 (a +ℤ b)

unfoldable pub sub64 : ℤ → ℤ → ℤ
unfolding wrap64 ◌-ℤ◌
sub64 a b = wrap64 (a -ℤ b)

abbrev pub InInt64 : ℤ → Type 0
InInt64 a = (pos_part a ≤ max_int64) × (neg_part a ≤ 2 ^ 63)

-- Nothing wraps while the exact result is in range.
pub wrap64_id : (a : ℤ) → InInt64 a → wrap64 a ≡ a
unfolding wrap64
wrap64_id (pos n) h = ground arith
wrap64_id (negsuc n) h = ground arith

pub wrap64-InInt64 : (a : ℤ) → InInt64 (wrap64 a)
unfolding wrap64
wrap64-InInt64 (pos n) = ground arith
wrap64-InInt64 (negsuc n) = ground arith

-- The low 64 bits of an integer: additions may wrap in any order.
wrap64_congr :
    (a b : ℤ) (k : ℕ)
    → pos_part a + neg_part b + k * 2 ^ 64 ≡ pos_part b + neg_part a
    → wrap64 a ≡ wrap64 b
unfolding wrap64
wrap64_congr (pos n) (pos m) k h = ground arith
wrap64_congr (pos n) (negsuc m) k h = ground arith
wrap64_congr (negsuc n) (pos m) k h = ground arith
wrap64_congr (negsuc n) (negsuc m) k h = ground arith

wrap64_multiple :
    (a : ℤ)
    → ((k : ℕ) × (pos_part a + neg_part (wrap64 a) + k * 2 ^ 64 ≡ pos_part (wrap64 a) + neg_part a))
      ⊎ ((k : ℕ) × (pos_part (wrap64 a) + neg_part a + k * 2 ^ 64
            ≡ pos_part a + neg_part (wrap64 a)))
unfolding wrap64
wrap64_multiple (pos n) = elim (Bool-cases (ltb (n % 2 ^ 64) (2 ^ 63))) [
  | inl h ↦ inr (n / 2 ^ 64, ground arith)
  | inr h ↦ inr (n / 2 ^ 64 + 1, ground arith)
]
wrap64_multiple (negsuc n) = elim (Bool-cases (ltb (n % 2 ^ 64) (2 ^ 63))) [
  | inl h ↦ inl (n / 2 ^ 64, ground arith)
  | inr h ↦ inl (n / 2 ^ 64 + 1, ground arith)
]

wrap64-add : (a b : ℤ) → wrap64 (wrap64 a +ℤ b) ≡ wrap64 (a +ℤ b)
wrap64-add a b = elim (wrap64_multiple a) [
  | inl (k, e) ↦ sym (wrap64_congr (a +ℤ b) (wrap64 a +ℤ b) k (omega int_laws))
  | inr (k, e) ↦ wrap64_congr (wrap64 a +ℤ b) (a +ℤ b) k (omega int_laws)
]

pub add64_comm : (a b : ℤ) → add64 a b ≡ add64 b a
unfolding add64
add64_comm a b = ap wrap64 (eq_of_parts (a +ℤ b) (b +ℤ a) (omega int_laws))

add64_def : (a b : ℤ) → add64 a b ≡ wrap64 (a +ℤ b)
unfolding add64
add64_def a b = refl

add64_twice : (a b c : ℤ) → add64 (add64 a b) c ≡ wrap64 (a +ℤ b +ℤ c)
add64_twice a b c = rw (add64_def (add64 a b) c, add64_def a b) (wrap64-add (a +ℤ b) c)

pub add64_assoc : (a b c : ℤ) → add64 (add64 a b) c ≡ add64 a (add64 b c)
add64_assoc a b c =
    add64_twice a b c
    ∙ ap wrap64 (eq_of_parts (a +ℤ b +ℤ c) (b +ℤ c +ℤ a) (omega int_laws))
    ∙ sym (add64_twice b c a)
    ∙ add64_comm (add64 b c) a

-- a + b + c with the last two exchanged.
pub add64_swap : (a b c : ℤ) → add64 (add64 a b) c ≡ add64 (add64 a c) b
add64_swap a b c = add64_assoc a b c ∙ ap (add64 a) (add64_comm b c) ∙ sym (add64_assoc a c b)

pub add64_pos : (a b : ℕ) → a + b ≤ max_int64 → add64 (pos a) (pos b) ≡ pos (a + b)
unfolding add64 wrap64 ◌+ℤ◌
add64_pos a b h = ground arith
