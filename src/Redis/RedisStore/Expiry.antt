-- ===== src/Redis/RedisStore/Expiry.antt =====
-- How long the counters of a `RedisStore` live.
use ratelimiter_redis.Base.{
  ◌∙◌, ℕ, suc, ◌+◌, ◌<◌, ◌≡◌, refl, ap, String, Result, ok, List, [], ◌∷◌, arith, length,
}
use ratelimiter_redis.Base.Int.{ℤ, pos, ◌+ℤ◌, ◌≤ℤ◌, ◌<ℤ◌, max_int64}
use ratelimiter_redis.Base.Clock.{seconds, Time, Duration, Moment}
use ratelimiter_redis.Redis.RedisStore.{RedisClient, incr_expire, new_redis_store}

-- The replies of the store to calls of `Increment` for one key.
pub increments :
    {R : Type 0} → RedisClient R → String → Duration → List Moment → R → List (Result ℤ)
increments client key window [] r = []
increments client key window (mo ∷ ms) r =
    let (count, r') = (new_redis_store client).increment mo key window r in
    count ∷ increments client key window ms r'

-- n + 1, n + 2, …
abbrev pub count_up : ℕ → List Moment → List (Result ℤ)
count_up n [] = []
count_up n (mo ∷ ms) = ok (pos (suc n)) ∷ count_up (suc n) ms

-- Each call comes before the window that its predecessor opens is over.
abbrev pub Close : Duration → Time → List Moment → Type 0
Close window t [] = Unit {0}
Close window t (mo ∷ ms) = (t ≤ℤ mo.first) × (mo.first <ℤ t +ℤ window) × Close window mo.first ms

-- Of the server: INCR adds 1 to the number that the key holds, 0 where it has none or it has expired, and
-- EXPIRE of a number of seconds lets it last for these. `holds t key r` is that number at the time `t`.
module _ {R : Type 0} (client : RedisClient R) (key : String) (w : ℕ)
    (holds : Time → String → R → ℕ)
    (counts : (now : Time) (r : R)
      → holds now key r < max_int64
      → ((client.incr now key r).0 ≡ ok (pos (suc (holds now key r))))
        × (holds now key (client.incr now key r).1 ≡ suc (holds now key r)))
    (expire_ok : (now : Time) (r : R) → (client.expire now key (seconds w) r).0 ≡ ok tt)
    (lasts : (now t : Time) (r : R)
      → now ≤ℤ t
      → t <ℤ now +ℤ seconds w
      → holds t key (client.expire now key (seconds w) r).1 ≡ holds now key r)
    (runs : (f : R → Result ℤ × R) (r : R) → client.exec f r ≡ f r) where
  abbrev pub window : Duration
  window = seconds w

  abbrev run : Time → R → Result ℤ × R
  run now r = incr_expire client now key window r

  incr :
      (now : Time) (r : R)
      → holds now key r < max_int64
      → (run now r).0 ≡ ok (pos (suc (holds now key r)))
  incr now r h = rw ((counts now r h).0, expire_ok now (client.incr now key r).1) refl

  expire :
      (now t : Time) (r : R)
      → holds now key r < max_int64
      → now ≤ℤ t
      → t <ℤ now +ℤ window
      → holds t key (run now r).1 ≡ suc (holds now key r)
  expire now t r h le lt = lasts now t (client.incr now key r).1 le lt ∙ (counts now r h).1

  counting_on :
      (ms : List Moment) (n : ℕ) (now : Time) (r : R)
      → n + length ms < max_int64
      → holds now key r ≡ n
      → Close window now ms
      → increments client key window ms (run now r).1 ≡ count_up (suc n) ms
  unfolding increments
  counting_on [] n now r room h close = refl
  counting_on (mo ∷ ms) n now r room h close =
      let r' = (run now r).1 in
      let held = expire now mo.first r (omega (arith, h)) close.0 close.1 in
      let held_n : holds mo.first key r' ≡ suc n = held ∙ ap suc h in
      let one : (run mo.first r').0 ≡ ok (pos (suc (suc n))) =
        incr mo.first r' (omega arith) ∙ ap (λ k. ok (pos (suc k))) held_n in
      rw (runs (run mo.first) r', one)
        (ap (◌∷◌ (ok (pos (suc (suc n)))))
          (counting_on ms (suc n) mo.first r' (omega arith) held_n close.2))

  -- While each call comes before the expiry that its predecessor set, the counter of a `RedisStore` goes
  -- on counting and never begins a new window, however many windows have passed since its first call: for
  -- each call sends EXPIRE after INCR. The window is of whole seconds, and the server is reached.
  pub window_never_ends :
      (mo : Moment) (ms : List Moment) (r : R)
      → length (mo ∷ ms) < max_int64
      → holds mo.first key r ≡ 0
      → Close window mo.first ms
      → increments client key window (mo ∷ ms) r ≡ count_up 0 (mo ∷ ms)
  unfolding increments
  window_never_ends mo ms r room h close =
      let one : (run mo.first r).0 ≡ ok (pos 1) =
        incr mo.first r (omega arith) ∙ ap (λ k. ok (pos (suc k))) h in
      rw (runs (run mo.first) r, one)
        (ap (◌∷◌ (ok (pos 1))) (counting_on ms 0 mo.first r (omega arith) h close))
