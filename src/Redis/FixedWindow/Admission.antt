-- ===== src/Redis/FixedWindow/Admission.antt =====
-- How many calls of a window a `FixedWindowCounter` admits.
use Prim.Native.String.{◌++◌}
use ratelimiter_redis.Base.{
  ◌*◌, ◌/◌, ℕ, suc, ◌+◌, ◌-◌, ◌≤◌, ◌<◌, ◌≡◌, refl, ap, ◌∙◌, String, Result, ok, List, [], ◌∷◌,
  arith, length, ltb,
}
use ratelimiter_redis.Base.Int.{ℤ, sub64, negsuc, pos, ◌+ℤ◌, ◌≤ℤ◌, ◌<ℤ◌, max_int64}
use ratelimiter_redis.Base.Clock.{Time, truncate, unix, nanoseconds}
use ratelimiter_redis.Base.Text.{itoa}
use ratelimiter_redis.Redis.FixedWindow.{
  FixedWindowCounter, FixedDecision, WindowCommands, pipeline, redis_key, reset_at, decide, allow,
}

-- A call of `Allow`: its reading of the clock, and the server's.
pub record Visit : Type 0 where
  pub now : Time
  pub server : Time

pub decisions :
    {R : Type 0}
    → WindowCommands R
    → FixedWindowCounter
    → String
    → List Visit
    → R
    → List (Result FixedDecision)
decisions commands f key [] r = []
decisions commands f key (v ∷ vs) r =
    let (d, r') = allow commands f v.now v.server key r in d ∷ decisions commands f key vs r'

-- Admit while fewer than `max` have come, and count down what is left, all with one reset time.
abbrev pub count_down : ℕ → Time → ℕ → List Visit → List (Result FixedDecision)
count_down max reset n [] = []
count_down max reset n (v ∷ vs) =
    ok (record { allowed = ltb n max; remaining = pos (max - suc n); reset_at = reset })
    ∷ count_down max reset (suc n) vs

-- The last whole second up to a time.
abbrev pub whole_second : Time → Time
whole_second (pos n) = pos (n / nanoseconds * nanoseconds)
whole_second (negsuc n) = negsuc (n / nanoseconds * nanoseconds + (nanoseconds - 1))

-- Of the server: INCR adds 1 to the number that the key holds, 0 where it has none or it has expired, and
-- EXPIREAT lets it last to the whole second up to the instant. `holds t k r` is that number at the time `t`.
module _ {R : Type 0} (commands : WindowCommands R) (holds : Time → String → R → ℕ)
    (counts : (now : Time) (k : String) (r : R)
      → holds now k r < max_int64
      → ((commands.incr now k r).0 ≡ ok (pos (suc (holds now k r))))
        × (holds now k (commands.incr now k r).1 ≡ suc (holds now k r)))
    (expire_ok : (now end : Time) (k : String) (r : R) → (commands.expire_at now k end r).0 ≡ ok tt)
    (lasts : (now end t : Time) (k : String) (r : R)
      → now ≤ℤ t
      → t <ℤ whole_second end
      → holds t k (commands.expire_at now k end r).1 ≡ holds now k r)
    (runs : (f : R → Result ℤ × R) (r : R) → commands.exec f r ≡ f r) (max : ℕ) (d : ℕ)
    (key : String) (room : max ≤ max_int64) where
  abbrev pipe : Time → String → Time → R → Result ℤ × R
  pipe = pipeline commands

  incr :
      (now end : Time) (k : String) (r : R)
      → holds now k r < max_int64
      → (pipe now k end r).0 ≡ ok (pos (suc (holds now k r)))
  incr now end k r h = rw ((counts now k r h).0, expire_ok now end k (commands.incr now k r).1) refl

  expire :
      (now end t : Time) (k : String) (r : R)
      → holds now k r < max_int64
      → now ≤ℤ t
      → t <ℤ whole_second end
      → holds t k (pipe now k end r).1 ≡ suc (holds now k r)
  expire now end t k r h le lt =
      lasts now end t k (commands.incr now k r).1 le lt ∙ (counts now k r h).1

  abbrev pub counter : FixedWindowCounter
  counter = record { window = pos (suc d); max = pos max }

  -- The calls in the window that begins at `w`, in the order of the server's times from `t` on.
  abbrev pub InWindow : Time → Time → List Visit → Type 0
  InWindow w t [] = Unit {0}
  InWindow w t (v ∷ vs) =
      (truncate v.now (pos (suc d)) ≡ w)
      × (t ≤ℤ v.server)
      × (v.server <ℤ whole_second (w +ℤ pos (suc d)))
      × InWindow w v.server vs

  abbrev pub key_of : Time → String
  key_of w = "fw:" ++ key ++ ":" ++ itoa (unix w)

  decide_count :
      (n : ℕ) (reset : Time)
      → n < max_int64
      → decide counter reset (ok (pos (suc n)))
        ≡ ok (record { allowed = ltb n max; remaining = pos (max - suc n); reset_at = reset })
  unfolding decide sub64
  decide_count n reset h = ground arith

  after_count :
      (n : ℕ) (w : Time) (v : Visit) (r : R)
      → n < max_int64
      → truncate v.now (pos (suc d)) ≡ w
      → holds v.server (key_of w) r ≡ n
      → ((allow commands counter v.now v.server key r).0
          ≡ ok (record {
            allowed = ltb n max;
            remaining = pos (max - suc n);
            reset_at = w +ℤ pos (suc d);
          }))
        × ((allow commands counter v.now v.server key r).1
            ≡ (pipe v.server (key_of w) (w +ℤ pos (suc d)) r).1)
  unfolding allow redis_key reset_at
  after_count n w v r lt at h =
      let count : (pipe v.server (key_of w) (w +ℤ pos (suc d)) r).0 ≡ ok (pos (suc n)) =
        incr v.server (w +ℤ pos (suc d)) (key_of w) r (omega arith)
        ∙ ap (λ k. ok (pos (suc k))) h in
      rw (at, runs (pipe v.server (key_of w) (w +ℤ pos (suc d))) r)
        (rw count (decide_count n (w +ℤ pos (suc d)) lt), refl)

  -- Of the successive calls for one key in a window whose key holds `n` at their beginning, in the order
  -- of the server's times, those are allowed that come before `max` have been counted, and no later one;
  -- each returns what is left of `max`, and the end of the window. The server is reached, and its times are
  -- before the whole second at which EXPIREAT lets the key expire: that is the end of the window where this
  -- is of whole seconds, and may be earlier where it is not.
  pub fixed_admits :
      (vs : List Visit) (n : ℕ) (w t : Time) (r : R)
      → n + length vs ≤ max_int64
      → InWindow w t vs
      → ((u : Time) → t ≤ℤ u → u <ℤ whole_second (w +ℤ pos (suc d)) → holds u (key_of w) r ≡ n)
      → decisions commands counter key vs r ≡ count_down max (w +ℤ pos (suc d)) n vs
  unfolding decisions
  fixed_admits [] n w t r fits within h = refl
  fixed_admits (v ∷ vs) n w t r fits within h =
      let (at, later, early, rest) = within in
      let now_n = h v.server later early in
      let out = after_count n w v r (omega arith) at now_n in
      rw (out.0, out.1)
        (ap
          (◌∷◌ (
            ok (record {
              allowed = ltb n max;
              remaining = pos (max - suc n);
              reset_at = w +ℤ pos (suc d);
            })))
          (fixed_admits vs (suc n) w v.server (pipe v.server (key_of w) (w +ℤ pos (suc d)) r).1
            (omega arith) rest
            (λ u le lt.
              expire v.server (w +ℤ pos (suc d)) u (key_of w) r (omega (arith, now_n)) le lt
              ∙ ap suc now_n)))
