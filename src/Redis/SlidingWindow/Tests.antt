-- ===== src/Redis/SlidingWindow/Tests.antt =====
-- The sliding window's theorem over a server that is a map of sets with expiries.
use ratelimiter_redis.Base.{
  ◌≤◌, length, ◌*◌, ℕ, ◌≡◌, refl, String, Option, none, some, Result, ok, List, [], ◌∷◌, arith,
  if◌then◌else◌, str_eq, eq_iff,
}
use ratelimiter_redis.Base.Int.{
  InInt64, ℤ, pos, ◌+ℤ◌, ◌≤ℤ◌, ◌<ℤ◌, pos_part, int_laws, +ℤ_parts, one_sign,
}
use ratelimiter_redis.Base.Decimal.{atoi, atoi-itoa}
use ratelimiter_redis.Base.Clock.{Duration, Time, before, seconds, nanoseconds}
use ratelimiter_redis.Redis.SlidingWindow.{itoa, ZCommands}
use ratelimiter_redis.Redis.SlidingWindow.Recent.{ZSet, IsNew, above}
use ratelimiter_redis.Redis.SlidingWindow.Counting.{whole, decisions, count_recent, sliding_counts}

abbrev Server : Type 0
Server = String → ZSet × Time

abbrev alive : Time → ZSet × Time → ZSet
alive now (es, end) = if before now end then es else []

abbrev set_of : Time → String → Server → ZSet
set_of now key r = alive now (r key)

abbrev put : String → ZSet × Time → Server → Server
put key v r k = if str_eq k key then v else r k

abbrev without : Option ℤ → ZSet → ZSet
without none es = es
without (some to) es = above to es

-- The end of an expiry that has passed is put off until the next EXPIRE, which is in the same transaction.
abbrev open_end : Time → ZSet → ZSet × Time
open_end now es = (es, now +ℤ seconds 1)

abbrev sorted_sets : ZCommands Server
unfolding atoi ◌+ℤ◌
sorted_sets = record {
  z_rem_range_by_score =
      λ now key from to r. (ok tt, put key (open_end now (without (atoi to) (set_of now key r))) r);
  z_add = λ now key score m r. (ok tt, put key (open_end now ((m, score) ∷ set_of now key r)) r);
  z_card = λ now key r. (ok (pos (length (set_of now key r))), r);
  expire = λ now key d r. (ok tt, put key (set_of now key r, now +ℤ pos (whole (pos_part d))) r);
  exec = λ f r. f r;
}

alive_until : (now end : Time) (es : ZSet) → now <ℤ end → alive now (es, end) ≡ es
alive_until now end es h = ground arith

alive_past : (now end : Time) (es : ZSet) → end ≤ℤ now → alive now (es, end) ≡ []
alive_past now end es h = ground arith

opens : (now : Time) → now <ℤ now +ℤ seconds 1
opens now = omega (int_laws, +ℤ_parts now (seconds 1), one_sign now)

set_removes :
    (now : Time) (k : String) (to : ℤ) (r : Server)
    → InInt64 to
    → let (reply, r') = sorted_sets.z_rem_range_by_score now k "0" (itoa to) r in
      (reply ≡ ok tt) × (set_of now k r' ≡ above to (set_of now k r))
unfolding sorted_sets
set_removes now k to r h = (
  refl,
  rw (atoi-itoa to h, (eq_iff k k).1 refl)
      (alive_until now (now +ℤ seconds 1) (above to (set_of now k r)) (opens now)),
)

set_adds :
    (now : Time) (k : String) (score : ℤ) (m : String) (r : Server)
    → IsNew m (set_of now k r)
    → let (reply, r') = sorted_sets.z_add now k score m r in
      (reply ≡ ok tt) × (set_of now k r' ≡ (m, score) ∷ set_of now k r)
unfolding sorted_sets
set_adds now k score m r new = (
  refl,
  rw ((eq_iff k k).1 refl)
      (alive_until now (now +ℤ seconds 1) ((m, score) ∷ set_of now k r) (opens now)),
)

set_cards :
    (now : Time) (k : String) (r : Server)
    → sorted_sets.z_card now k r ≡ (ok (pos (length (set_of now k r))), r)
unfolding sorted_sets
set_cards now k r = refl

set_expire_ok :
    (now : Time) (k : String) (d : Duration) (r : Server) → (sorted_sets.expire now k d r).0 ≡ ok tt
unfolding sorted_sets
set_expire_ok now k d r = refl

set_lasts :
    (now t : Time) (k : String) (d : ℕ) (r : Server)
    → nanoseconds ≤ d
    → now ≤ℤ t
    → t <ℤ now +ℤ pos (whole d)
    → set_of t k (sorted_sets.expire now k (pos d) r).1 ≡ set_of now k r
unfolding sorted_sets
set_lasts now t k d r one le lt =
    rw ((eq_iff k k).1 refl) (alive_until t (now +ℤ pos (whole d)) (set_of now k r) lt)

set_expires :
    (now t : Time) (k : String) (d : ℕ) (r : Server)
    → nanoseconds ≤ d
    → now +ℤ pos (whole d) ≤ℤ t
    → set_of t k (sorted_sets.expire now k (pos d) r).1 ≡ []
unfolding sorted_sets
set_expires now t k d r one le =
    rw ((eq_iff k k).1 refl) (alive_past t (now +ℤ pos (whole d)) (set_of now k r) le)

set_runs : (f : Server → Result ℤ × Server) (r : Server) → sorted_sets.exec f r ≡ f r
unfolding sorted_sets
set_runs f r = refl

abbrev empty : Server
empty k = ([], pos 0)

-- Two a second: the third is refused, and so is the fourth for the third.
abbrev calls : List ℕ
calls = 5000000000 ∷ 5100000000 ∷ 5200000000 ∷ 6050000000 ∷ []

sliding_counts_example :
    decisions sorted_sets "k" (pos 2) (pos (1000 * 1000000)) calls empty
    ≡ count_recent 2 1000 [] calls
sliding_counts_example =
    sliding_counts sorted_sets set_of set_removes set_adds set_cards set_expire_ok set_lasts
      set_expires set_runs 2 1000 (omega arith) "k" calls 0 empty
      (omega arith, (omega arith, (omega arith, (omega arith, omega arith)))) (λ t h. ground arith)
