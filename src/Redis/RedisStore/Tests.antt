-- ===== src/Redis/RedisStore/Tests.antt =====
-- The store's theorem over a server that is a counter with an expiry.
use ratelimiter_redis.Base.{
  ℕ, suc, ◌≡◌, refl, String, Option, none, some, ok, [], ◌∷◌, true, arith, if◌then◌else◌,
}
use ratelimiter_redis.Base.Int.{◌<ℤ◌, ◌≤ℤ◌, pos, ◌+ℤ◌}
use ratelimiter_redis.Base.Clock.{Time, Moment, seconds, before}
use ratelimiter_redis.Redis.RedisStore.{RedisClient, nil}
use ratelimiter_redis.Redis.RedisStore.Expiry.{increments, count_up, window_never_ends}

-- One counter, and its expiry if it has one.
abbrev Server : Type 0
Server = ℕ × Option Time

abbrev held : Time → String → Server → ℕ
held now key (n, none) = n
held now key (n, some end) = if before now end then n else 0

-- A key that INCR makes has no expiry.
abbrev incremented : Time → Server → Server
incremented now (n, none) = (suc n, none)
incremented now (n, some end) = if before now end then (suc n, some end) else (1, none)

abbrev counts : RedisClient Server
counts = record {
  incr = λ now key r. (ok (pos (suc (held now key r))), incremented now r);
  expire = λ now key window r. (ok tt, (held now key r, some (now +ℤ window)));
  exec = λ f r. f r;
  get = λ now key r. (nil, r);
  set = λ now key v w r. (ok tt, r);
  set_nx = λ now key v w r. (ok true, r);
  ttl = λ now key r. (ok (pos 0), r);
  del = λ key r. (ok tt, r);
  ping = λ r. (ok tt, r);
}

abbrev at : ℕ → Moment
at n = record { first = seconds n; second = seconds n }

held-incremented :
    (now : Time) (r : Server) → held now "k" (incremented now r) ≡ suc (held now "k" r)
held-incremented now (n, none) = refl
held-incremented now (n, some end) = ground arith

held_lasts :
    (now t : Time) (r : Server)
    → now ≤ℤ t
    → t <ℤ now +ℤ seconds 60
    → held t "k" (held now "k" r, some (now +ℤ seconds 60)) ≡ held now "k" r
held_lasts now t r h h' = ground arith

-- Calls each 40 seconds with a window of a minute: the fourth, two minutes on, is the fourth still.
window_never_ends_example :
    increments counts "k" (seconds 60) (at 0 ∷ at 40 ∷ at 80 ∷ at 120 ∷ []) (0, none)
    ≡ count_up 0 (at 0 ∷ at 40 ∷ at 80 ∷ at 120 ∷ [])
unfolding ◌+ℤ◌
window_never_ends_example =
    window_never_ends counts "k" 60 held (λ now r h. (refl, held-incremented now r)) (λ now r. refl)
      held_lasts (λ f r. refl) (at 0) (at 40 ∷ at 80 ∷ at 120 ∷ []) (0, none) (omega arith) refl
      (omega arith)
