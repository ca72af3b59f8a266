-- ===== src/Redis/TokenBucket/Levels.antt =====
-- The tokens that the script computes, in units, where the arithmetic is exact.
use native.Mathlib.Nat.{mul-le-mul_right}
use ratelimiter_redis.Base.{ℕ, ◌+◌, ◌-◌, ◌*◌, ◌≤◌, ◌≡◌, arith, ltb, Bool-cases, inl, inr, ap, ◌∙◌}
use ratelimiter_redis.Base.Int.{pos}
use ratelimiter_redis.Redis.TokenBucket.{math_min, Float, new_tokens}
use ratelimiter_redis.Redis.TokenBucket.Laws.{Exact, OnGrid, capped_full}
use ratelimiter_redis.Redis.TokenBucket.Ideal.{ms, capped}

module _ {F : Type 0} (float : Float F) (num : ℕ → F) (big unit p grid : ℕ) (rate : F)
    (exact : Exact float num big unit p grid rate) (burst until : ℕ) (unit_fits : unit ≤ big)
    (times_fit : ms until * unit ≤ big) (tokens_fit : burst * unit + ms until * p ≤ big) where
  abbrev of : ℕ → F
  of n = float.of_int (pos n)

  min_num : (a b : ℕ) → a ≤ big → b ≤ big → math_min float (num a) (num b) ≡ num (capped a b)
  min_num a b h h' = rw (exact.lt_num b a h' h) (elim (Bool-cases (ltb b a)) [
    | inl e ↦ rw e (ap num (ground (arith, e)))
    | inr e ↦ rw e (ap num (ground (arith, e)))
  ])

  pub new_tokens_num :
      (s t x : ℕ)
      → OnGrid grid s
      → OnGrid grid t
      → s ≤ t
      → t ≤ ms until
      → x ≤ burst * unit
      → new_tokens float rate (of burst) (of t) (num x) (of s)
        ≡ num (capped (burst * unit) (x + (t - s) * p))
  unfolding new_tokens
  new_tokens_num s t x gs gt h early le =
      let in_time = mul-le-mul_right {m = t} {n = ms until} unit early in
      let in_tokens = mul-le-mul_right {m = t - s} {n = ms until} p (omega arith) in
      rw
        (
          exact.earned s t gs gt h (omega arith) (omega arith),
          exact.add_num x ((t - s) * p) (omega arith),
          exact.of_int_num burst (omega arith),
        )
        (min_num (burst * unit) (x + (t - s) * p) (omega arith) (omega arith))

  pub fresh_num :
      (s : ℕ)
      → OnGrid grid s
      → s ≤ ms until
      → new_tokens float rate (of burst) (of s) (of burst) (of s) ≡ num (burst * unit)
  fresh_num s g h =
      ap (λ x. new_tokens float rate (of burst) (of s) x (of s))
        (exact.of_int_num burst (omega arith))
      ∙ new_tokens_num s s (burst * unit) g g (omega arith) h (omega arith)
      ∙ ap num (capped_full (burst * unit) (burst * unit + (s - s) * p) (omega arith))

  pub one_num : of 1 ≡ num unit
  one_num = exact.of_int_num 1 (omega arith) ∙ ap num (omega arith)

  pub lt_one : (n : ℕ) → n ≤ big → float.lt (num n) (of 1) ≡ ltb n unit
  lt_one n h = ap (float.lt (num n)) one_num ∙ exact.lt_num n unit h unit_fits
