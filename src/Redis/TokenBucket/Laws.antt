-- ===== src/Redis/TokenBucket/Laws.antt =====
-- What the token bucket's theorems assume of the numbers and of the server's commands.
use Prim.Native.String.{◌++◌}
use text.Mathlib.TextLemmas.{append_cancel_left}
use ratelimiter_redis.Base.{
  str_eq, ℕ, ◌+◌, ◌-◌, ◌*◌, ◌≤◌, ◌<◌, ◌≡◌, ◌≢◌, true, false, arith, ltb, String, none, some, ap,
}
use ratelimiter_redis.Base.Int.{wrap64, ℤ, pos, max_int64}
use ratelimiter_redis.Base.Clock.{Time}
use ratelimiter_redis.Redis.TokenBucket.{math_max, Float, Commands, tokens_key, ts_key, ttl_ms}
use ratelimiter_redis.Redis.TokenBucket.Ideal.{capped}

-- The milliseconds that are a whole number of steps of `grid`.
abbrev pub OnGrid : ℕ → ℕ → Type 0
OnGrid grid t = (i : ℕ) × (t ≡ i * grid)

-- Where the arithmetic is exact. `num n` is the number of `n` units, `unit` of which are 1, and `p` of which
-- come in a millisecond at `rate`. Up to `big` units their sums and differences are exact, and so are the
-- tokens of a time between two points of a grid of milliseconds. That is so of float64, for example, at 125
-- tokens a second: units are eighths, `big` is 2^53, and the grid is of 125 milliseconds.
pub record Exact {F : Type 0} (float : Float F) (num : ℕ → F) (big unit p grid : ℕ) (rate : F)
    : Type 0 where
  pub of_int_num : (n : ℕ) → n * unit ≤ big → float.of_int (pos n) ≡ num (n * unit)
  pub lt_num : (a b : ℕ) → a ≤ big → b ≤ big → float.lt (num a) (num b) ≡ ltb a b
  pub add_num : (a b : ℕ) → a + b ≤ big → float.add (num a) (num b) ≡ num (a + b)
  pub sub_num : (a b : ℕ) → b ≤ a → a ≤ big → float.sub (num a) (num b) ≡ num (a - b)
  pub earned :
      (s t : ℕ)
      → OnGrid grid s
      → OnGrid grid t
      → s ≤ t
      → t * unit ≤ big
      → (t - s) * p ≤ big
      → float.mul
          (float.div
            (math_max float
              (float.of_int (pos 0))
              (float.sub (float.of_int (pos t)) (float.of_int (pos s))))
            (float.of_int (pos 1000)))
          rate
        ≡ num ((t - s) * p)

-- SET with PX keeps a value for its time to live, under its key alone.
pub record Expiring {F R : Type 0} (commands : Commands F R) : Type 0 where
  pub set_lasts :
      (at t ttl : ℕ) (k : String) (x : F) (r : R)
      → at ≤ t
      → t < at + ttl * 1000000
      → commands.get (pos t) k (commands.set_px (pos at) k x (pos ttl) r) ≡ some x
  pub set_expires :
      (at t ttl : ℕ) (k : String) (x : F) (r : R)
      → at + ttl * 1000000 ≤ t
      → commands.get (pos t) k (commands.set_px (pos at) k x (pos ttl) r) ≡ none
  pub set_other :
      (at t : Time) (k j : String) (x : F) (ttl : ℤ) (r : R)
      → k ≢ j
      → commands.get t j (commands.set_px at k x ttl r) ≡ commands.get t j r

pub capped_full : (cap x : ℕ) → cap ≤ x → capped cap x ≡ cap
capped_full cap x h = ground arith

pub ttl_double : (w : ℕ) → w * 1000000 ≤ max_int64 → ttl_ms (pos (w * 1000000)) ≡ pos (w * 2)
unfolding ttl_ms wrap64
ttl_double w h = ground arith

pub keys_differ : (key : String) → tokens_key key ≢ ts_key key
keys_differ key e =
    let rest =
      append_cancel_left key ":tokens" ":ts"
        (append_cancel_left "tb:" (key ++ ":tokens") (key ++ ":ts") e) in
    let no : false ≡ true = ap (λ s. str_eq s ":ts") rest in ground (arith, no)
