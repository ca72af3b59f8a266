-- ===== src/Base/Clock.antt =====
-- Go's package time, as far as the program uses it. A `Time` is its distance from the Unix epoch in
-- nanoseconds; `time.Time` has room for 292 billion years, and its additions are not wrapped here. A
-- `Duration` is an `int64` of nanoseconds, and a difference of times saturates at its bounds.
use Prim.Native.Nat.{◌+◌, ℕ, zero, suc, ◌%◌, ◌/◌, ◌<◌, ◌-◌, ◌*◌, ◌^◌}
use mathlib.Core.Bool.{Bool, true, false}
use ratelimiter_redis.Base.Tests.{ltb, if◌then◌else◌}
use mathlib.Core.Path.{◌≡◌, refl}
use native.Mathlib.Omega.{arith}
use native.Mathlib.Nat.{mod-lt}
use ratelimiter_redis.Base.Int.{
  ◌≤ℤ◌, ◌<ℤ◌, int_laws, -ℤ_parts, +ℤ_parts, one_sign, ◌+ℤ◌, ◌<ℤ◌, ◌≤ℤ◌, ℤ, pos, negsuc, ◌-ℤ◌, ltb_ℤ,
  eqb_ℤ, pos_part, neg_part, max_int64,
}

abbrev pub Time : Type 0
Time = ℤ

abbrev pub Duration : Type 0
Duration = ℤ

abbrev pub nanoseconds : ℕ
nanoseconds = 1000000000

abbrev pub seconds : ℕ → Duration
seconds n = pos (n * nanoseconds)

-- The zero `Time`, the first of January of the year 1.
abbrev pub zero_time : Time
zero_time = negsuc (62135596800 * 1000000000 - 1)

abbrev pub is_zero : Time → Bool
is_zero t = eqb_ℤ t zero_time

abbrev pub after : Time → Time → Bool
after t u = ltb_ℤ u t

abbrev pub before : Time → Time → Bool
before t u = ltb_ℤ t u

abbrev pub saturate : ℤ → Duration
saturate d =
    if ltb max_int64 (pos_part d)
    then pos max_int64
    else if ltb (2 ^ 63) (neg_part d)
    then negsuc max_int64
    else d

-- `time.Since(t)` where the clock reads `now`, and `time.Until(t)`.
unfoldable pub since : Time → Time → Duration
unfolding ◌-ℤ◌
since now t = saturate (now -ℤ t)

unfoldable pub until : Time → Time → Duration
unfolding ◌-ℤ◌
until now t = saturate (t -ℤ now)

-- The readings of `time.Now()` that one call makes, in their order.
pub record Moment : Type 0 where
  pub first : Time
  pub second : Time

-- The remainder of an integer by a positive number, from 0 on.
abbrev pub floor_mod : ℤ → ℕ → ℕ
floor_mod (pos n) d = n % d
floor_mod (negsuc n) d = d - 1 - n % d

-- t.Truncate(d): down to a multiple of `d` since the zero time; `t` itself where `d` is not positive.
unfoldable pub truncate : Time → Duration → Time
unfolding ◌-ℤ◌
truncate t (pos zero) = t
truncate t (pos (suc d)) = t -ℤ pos (floor_mod (t -ℤ zero_time) (suc d))
truncate t (negsuc d) = t

-- t.Unix(): whole seconds since the epoch, rounded down.
unfoldable pub unix : Time → ℤ
unix (pos n) = pos (n / nanoseconds)
unix (negsuc n) = negsuc (n / nanoseconds)

floor_mod_lt : (a : ℤ) (d : ℕ) → floor_mod a (suc d) < suc d
floor_mod_lt (pos n) d = mod-lt n (omega arith)
floor_mod_lt (negsuc n) d = omega arith

truncate_lem :
    (t : Time) (d : ℕ) → truncate t (pos (suc d)) ≡ t -ℤ pos (floor_mod (t -ℤ zero_time) (suc d))
unfolding truncate
truncate_lem t d = refl

-- A time lies in the window of length `d` that begins at its truncation.
pub truncate_bounds :
    (t : Time) (d : ℕ)
    → (truncate t (pos (suc d)) ≤ℤ t) × (t <ℤ truncate t (pos (suc d)) +ℤ pos (suc d))
truncate_bounds t d =
    let r = floor_mod (t -ℤ zero_time) (suc d) in
    let r_lt = floor_mod_lt (t -ℤ zero_time) d in
    rw truncate_lem (
      omega (int_laws, r_lt, -ℤ_parts t (pos r)),
      omega (int_laws, r_lt, -ℤ_parts t (pos r), +ℤ_parts (t -ℤ pos r) (pos (suc d)), one_sign t),
    )

-- t.UnixMilli(): whole milliseconds since the epoch, rounded down.
unfoldable pub unix_milli : Time → ℤ
unix_milli (pos n) = pos (n / 1000000)
unix_milli (negsuc n) = negsuc (n / 1000000)

pub unix_milli_mono : (t u : Time) → t ≤ℤ u → unix_milli t ≤ℤ unix_milli u
unfolding unix_milli
unix_milli_mono (pos a) (pos b) h = omega arith
unix_milli_mono (pos a) (negsuc b) h = omega arith
unix_milli_mono (negsuc a) (pos b) h = omega arith
unix_milli_mono (negsuc a) (negsuc b) h = omega arith

pub before_sum : (t d u : ℕ) → ltb u (t + d) ≡ true → pos u <ℤ pos t +ℤ pos d
unfolding ◌+ℤ◌
before_sum t d u h = ground (arith, h)

pub from_sum : (t d u : ℕ) → ltb u (t + d) ≡ false → pos t +ℤ pos d ≤ℤ pos u
unfolding ◌+ℤ◌
from_sum t d u h = ground (arith, h)
