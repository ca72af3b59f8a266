-- ===== src/Leaky/Tests.antt =====
-- The bound of the leaky bucket at concrete calls, over a map with expiries.
use ratelimiter_redis.Base.{
  ℕ, ◌+◌, ◌-◌, ◌*◌, ◌/◌, ◌≤◌, ◌<◌, ◌≡◌, refl, String, Result, ok, err, [], ◌∷◌, arith,
  if◌then◌else◌, str_eq,
}
use ratelimiter_redis.Base.Int.{ℤ, pos, ◌+ℤ◌}
use ratelimiter_redis.Base.Clock.{Time, before}
use ratelimiter_redis.Leaky.{LeakyClient}
use ratelimiter_redis.Leaky.Admission.{IsMissing, allowed_count, bucket, leaky_bound}

abbrev Keys : Type 0
Keys = String → ℤ × Time

abbrev alive : Time → ℤ × Time → Result ℤ
alive now (n, end) = if before now end then ok n else err "redis: nil"

abbrev reads : Time → String → Keys → Result ℤ
reads now k m = alive now (m k)

abbrev map_client : LeakyClient Keys
unfolding ◌+ℤ◌
map_client = record {
  get_both = λ now a b m. (reads now a m, reads now b m, m);
  set_both = λ now a c b t w m.
      (ok tt, λ k. if str_eq k a then (c, now +ℤ w) else if str_eq k b then (t, now +ℤ w) else m k);
}

set_lasts :
    (now w u : ℕ) (c t : ℤ) (m : Keys)
    → now ≤ u
    → u < now + w * 1000000
    → let m' =
        (map_client.set_both (pos now) "leaky:k" c "leaky:k:last" t (pos (w * 1000000)) m).1 in
      (reads (pos u) "leaky:k" m' ≡ ok c) × (reads (pos u) "leaky:k:last" m' ≡ ok t)
unfolding map_client
set_lasts now w u c t m h h' = (ground arith, ground arith)

set_expires :
    (now w u : ℕ) (c t : ℤ) (m : Keys)
    → now + w * 1000000 ≤ u
    → let m' =
        (map_client.set_both (pos now) "leaky:k" c "leaky:k:last" t (pos (w * 1000000)) m).1 in
      IsMissing (reads (pos u) "leaky:k" m') × IsMissing (reads (pos u) "leaky:k:last" m')
unfolding map_client
set_expires now w u c t m h = (ground arith, ground arith)

gets_both :
    (now : Time) (m : Keys)
    → map_client.get_both now "leaky:k" "leaky:k:last" m
      ≡ (reads now "leaky:k" m, reads now "leaky:k:last" m, m)
unfolding map_client
gets_both now m = refl

sets_both :
    (now w : ℕ) (c t : ℤ) (m : Keys)
    → (map_client.set_both (pos now) "leaky:k" c "leaky:k:last" t (pos (w * 1000000)) m).0 ≡ ok tt
unfolding map_client
sets_both now w c t m = refl

-- Set at 10, for a millisecond.
abbrev one_call : Keys
one_call k = if str_eq k "leaky:k" then (pos 1, pos 1000010) else (pos 10, pos 1000010)

-- The rate is 2, and a call leaks in half a millisecond; the last call finds the keys gone.
leaky_bound_example :
    allowed_count map_client
        (bucket map_client "k" reads gets_both sets_both set_lasts set_expires 2 500000 1
          (omega arith)
          (omega arith)
          (omega arith)
          (omega arith))
        "k"
        (11 ∷ 12 ∷ 500016 ∷ 2000000 ∷ [])
        one_call
      + 1
    ≤ 2 + (2000000 - 10) / 500000
leaky_bound_example =
    leaky_bound map_client "k" reads gets_both sets_both set_lasts set_expires 2 500000 1
      (omega arith) (omega arith) (omega arith) (omega arith) (11 ∷ 12 ∷ 500016 ∷ 2000000 ∷ []) 1 10
      2000000 one_call (λ u h h'. (ground arith, ground arith), λ u h. (ground arith, ground arith))
      (omega arith) (omega arith, (omega arith, (omega arith, (omega arith, omega arith))))
      (omega arith)
