-- ===== src/Redis/FixedWindow/Tests.antt =====
-- The fixed window's theorem over a server that is a map with expiries.
use ratelimiter_redis.Base.{
  ℕ, suc, ◌≡◌, refl, String, Option, none, some, ok, [], ◌∷◌, arith, if◌then◌else◌, str_eq, eq_iff,
}
use ratelimiter_redis.Base.Int.{pos, ◌+ℤ◌, ◌≤ℤ◌, ◌<ℤ◌}
use ratelimiter_redis.Base.Clock.{Time, seconds, before, truncate}
use ratelimiter_redis.Redis.FixedWindow.{WindowCommands}
use ratelimiter_redis.Redis.FixedWindow.Admission.{
  whole_second, Visit, counter, decisions, count_down, fixed_admits,
}

-- A number, and its expiry if it has one.
abbrev Server : Type 0
Server = String → ℕ × Option Time

abbrev alive : Time → ℕ × Option Time → ℕ
alive now (n, none) = n
alive now (n, some end) = if before now end then n else 0

abbrev held : Time → String → Server → ℕ
held now key r = alive now (r key)

-- A key that INCR makes has no expiry.
abbrev incremented : Time → ℕ × Option Time → ℕ × Option Time
incremented now (n, none) = (suc n, none)
incremented now (n, some end) = if before now end then (suc n, some end) else (1, none)

abbrev put : String → ℕ × Option Time → Server → Server
put key v r k = if str_eq k key then v else r k

abbrev counting : WindowCommands Server
counting = record {
  incr = λ now key r. (ok (pos (suc (held now key r))), put key (incremented now (r key)) r);
  expire_at = λ now key end r. (ok tt, put key (held now key r, some (whole_second end)) r);
  exec = λ f r. f r;
}

abbrev empty : Server
empty k = (0, none)

alive-incremented :
    (now : Time) (v : ℕ × Option Time) → alive now (incremented now v) ≡ suc (alive now v)
alive-incremented now (n, none) = refl
alive-incremented now (n, some end) = ground arith

held_counts :
    (now : Time) (k : String) (r : Server)
    → ((counting.incr now k r).0 ≡ ok (pos (suc (held now k r))))
      × (held now k (counting.incr now k r).1 ≡ suc (held now k r))
held_counts now k r = (refl, rw ((eq_iff k k).1 refl) (alive-incremented now (r k)))

lasting : (n : ℕ) (t end : Time) → t <ℤ end → alive t (n, some end) ≡ n
lasting n t end h = ground arith

held_lasts :
    (now end t : Time) (k : String) (r : Server)
    → now ≤ℤ t
    → t <ℤ whole_second end
    → held t k (counting.expire_at now k end r).1 ≡ held now k r
held_lasts now end t k r h h' =
    rw ((eq_iff k k).1 refl) (lasting (held now k r) t (whole_second end) h')

abbrev visit : ℕ → Visit
visit n = record { now = seconds n; server = seconds n }

abbrev minute : ℕ
minute = 59999999999

fixed_admits_example :
    decisions counting
      (counter counting held
        (λ now k r h. held_counts now k r)
        (λ now end k r. refl)
        held_lasts
        (λ f r. refl)
        2
        minute
        "k"
        (omega arith))
      "k"
      (visit 61 ∷ visit 62 ∷ visit 70 ∷ [])
      empty
    ≡ count_down 2 (seconds 120) 0 (visit 61 ∷ visit 62 ∷ visit 70 ∷ [])
unfolding truncate ◌+ℤ◌
fixed_admits_example =
    fixed_admits counting held (λ now k r h. held_counts now k r) (λ now end k r. refl) held_lasts
      (λ f r. refl) 2 minute "k" (omega arith) (visit 61 ∷ visit 62 ∷ visit 70 ∷ []) 0 (seconds 60)
      (seconds 60) empty (omega arith)
      (
        refl,
        omega arith,
        omega arith,
        (refl, omega arith, omega arith, (refl, omega arith, omega arith, tt)),
      )
      (λ u le lt. ground arith)
