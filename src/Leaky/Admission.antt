-- ===== src/Leaky/Admission.antt =====
-- `Allow` over a client whose keys hold what was set.
use native.Mathlib.Nat.{div-le_self, le-div_iff_mul-le}
use Prim.Native.String.{◌++◌}
use ratelimiter_redis.Base.{
  ℕ, suc, ◌*◌, ◌+◌, ◌-◌, ◌/◌, ◌≤◌, ◌<◌, ◌≡◌, refl, String, true, false, Result, ok, err, List, [],
  ◌∷◌, arith, leb, ltb, ap, if◌then◌else◌, Bool-cases, inl, inr,
}
use ratelimiter_redis.Base.Int.{add64, leb_ℤ, ◌-ℤ◌, wrap64, sub64, ℤ, pos, max_int64}
use ratelimiter_redis.Base.Clock.{Time}
use ratelimiter_redis.Leaky.{
  value_or, admit, div64, LeakyBucketCounter, LeakyClient, LeakyDecision, drained, allow,
}
use ratelimiter_redis.Leaky.Bound.{
  Ordered-earlier, Ordered-end, level, admissions, Ordered, admissions_times, bound,
}

drained-level :
    (rate window : ℤ) (leak count last now : ℕ)
    → 0 < leak
    → leak ≤ max_int64
    → count ≤ max_int64
    → last ≤ now
    → now ≤ max_int64
    → drained
        (record { rate = rate; window = window; leak_rate = pos leak })
        (pos now)
        (pos count)
        (pos last)
      ≡ pos (level leak count last now)
unfolding drained div64 sub64 wrap64 ◌-ℤ◌
drained-level rate window leak count last now h1 h2 h3 h4 h5 =
    let small = div-le_self (now - last) leak in ground arith

leb_pos : (a b : ℕ) → leb_ℤ (pos a) (pos b) ≡ leb a b
leb_pos a b = ground arith

suc_pos : (a : ℕ) → a < max_int64 → add64 (pos a) (pos 1) ≡ pos (suc a)
unfolding add64
suc_pos a h = ground arith

abbrev pub admitted : Result LeakyDecision → ℕ
admitted (err e) = 0
admitted (ok d) = if d.allowed then 1 else 0

abbrev pub count_key : String → String
count_key key = "leaky:" ++ key

abbrev pub last_key : String → String
last_key key = "leaky:" ++ key ++ ":last"

-- The number of the calls of `Allow` that are admitted, at these times of the caller's and the server's
-- clock.
unfoldable pub allowed_count :
    {R : Type 0} → LeakyClient R → LeakyBucketCounter → String → List ℕ → R → ℕ
allowed_count client l key [] m = 0
allowed_count client l key (t ∷ ts) m =
    let (d, m') = allow client l (pos t) (pos t) (pos t) key m in
    admitted d + allowed_count client l key ts m'

-- What a window without a call leaves of a count up to the rate.
level_over :
    (rate leak count last now w : ℕ)
    → 0 < leak
    → rate * leak ≤ w
    → count ≤ rate
    → last + w ≤ now
    → level leak count last now ≡ 0
level_over rate leak count last now w h whole le over =
    let leaked = (le-div_iff_mul-le {x = rate} {y = now - last} h).1 (omega arith) in omega arith

abbrev pub IsMissing : Result ℤ → Type 0
IsMissing (ok n) = ⊥
IsMissing (err e) = Unit {0}

missing_or : (d : ℤ) (got : Result ℤ) → IsMissing got → value_or d got ≡ d
missing_or d (ok n) h = elim h [ ]
missing_or d (err e) h = refl

nothing_left : (leak now : ℕ) → level leak 0 now now ≡ 0
nothing_left leak now = omega arith

-- Of the server, at a time: `stored` says what a key holds. GET reads that; SET lets it hold a value until
-- the expiry, a number of whole milliseconds, and no longer; and neither fails.
module _ {R : Type 0} (client : LeakyClient R) (key : String)
    (stored : Time → String → R → Result ℤ)
    (gets : (now : Time) (m : R)
      → client.get_both now (count_key key) (last_key key) m
        ≡ (stored now (count_key key) m, stored now (last_key key) m, m))
    (sets : (now w : ℕ) (c t : ℤ) (m : R)
      → (client.set_both (pos now) (count_key key) c (last_key key) t (pos (w * 1000000)) m).0
        ≡ ok tt)
    (lasts : (now w u : ℕ) (c t : ℤ) (m : R)
      → now ≤ u
      → u < now + w * 1000000
      → let m' =
          (client.set_both (pos now) (count_key key) c (last_key key) t (pos (w * 1000000)) m).1 in
        (stored (pos u) (count_key key) m' ≡ ok c) × (stored (pos u) (last_key key) m' ≡ ok t))
    (expires : (now w u : ℕ) (c t : ℤ) (m : R)
      → now + w * 1000000 ≤ u
      → let m' =
          (client.set_both (pos now) (count_key key) c (last_key key) t (pos (w * 1000000)) m).1 in
        IsMissing (stored (pos u) (count_key key) m')
        × IsMissing (stored (pos u) (last_key key) m'))
    (rate leak w : ℕ) (small : rate < max_int64) (leaks : 0 < leak) (fits : leak ≤ max_int64)
    (whole : rate * leak ≤ w * 1000000) where
  abbrev pub bucket : LeakyBucketCounter
  bucket = record { rate = pos rate; window = pos (w * 1000000); leak_rate = pos leak }

  -- A count that was set at `last`, and is gone when the window has passed since.
  abbrev pub Contents : ℕ → ℕ → R → Type 0
  Contents count last m =
      ((u : ℕ)
        → last ≤ u
        → u < last + w * 1000000
        → (stored (pos u) (count_key key) m ≡ ok (pos count))
          × (stored (pos u) (last_key key) m ≡ ok (pos last)))
      × ((u : ℕ)
          → last + w * 1000000 ≤ u
          → IsMissing (stored (pos u) (count_key key) m)
            × IsMissing (stored (pos u) (last_key key) m))

  allow_at :
      (count last now : ℕ) (m : R)
      → Contents count last m
      → count ≤ rate
      → last ≤ now
      → now ≤ max_int64
      → allow client bucket (pos now) (pos now) (pos now) key m
        ≡ admit client bucket (pos now) (pos now) key (pos (level leak count last now)) m
  unfolding allow
  allow_at count last now m h h1 h2 h3 = elim (Bool-cases (ltb now (last + w * 1000000))) [
    | inl early ↦
        let held = h.0 now h2 (ground (arith, early)) in
        rw
          (
            gets (pos now) m,
            held.0,
            held.1,
            drained-level (pos rate) (pos (w * 1000000)) leak count last now leaks fits
                (omega arith) h2 h3,
          )
          refl
    | inr late ↦
        let over : last + w * 1000000 ≤ now = ground (arith, late) in
        let gone = h.1 now over in
        rw
          (
            gets (pos now) m,
            missing_or (pos 0) (stored (pos now) (count_key key) m) gone.0,
            missing_or (pos now) (stored (pos now) (last_key key) m) gone.1,
            drained-level (pos rate) (pos (w * 1000000)) leak 0 now now leaks fits (omega arith)
                (omega arith) h3,
            level_over rate leak count last now (w * 1000000) leaks whole h1 over,
          )
          (ap (λ n. admit client bucket (pos now) (pos now) key (pos n) m) (nothing_left leak now))
  ]

  refuses :
      (c now : ℕ) (m : R)
      → leb rate c ≡ true
      → admit client bucket (pos now) (pos now) key (pos c) m
        ≡ (ok (record { allowed = false; remaining = pos 0 }), m)
  refuses c now m full = rw (leb_pos rate c, full) refl

  abbrev admitting : ℕ → ℕ → R → Result LeakyDecision × R
  admitting c now m = admit client bucket (pos now) (pos now) key (pos c) m

  admits :
      (c now : ℕ) (m : R)
      → c < max_int64
      → leb rate c ≡ false
      → (admitted (admitting c now m).0 ≡ 1) × Contents (suc c) now (admitting c now m).1
  admits c now m h room =
      rw (leb_pos rate c, room, suc_pos c h, sets now w (pos (suc c)) (pos now) m)
        (
          refl,
          (
            λ u. lasts now w u (pos (suc c)) (pos now) m,
            λ u. expires now w u (pos (suc c)) (pos now) m,
          ),
        )

  counts_admissions :
      (ts : List ℕ) (count last end : ℕ) (m : R)
      → Contents count last m
      → count ≤ rate
      → Ordered last end ts
      → end ≤ max_int64
      → allowed_count client bucket key ts m ≡ admissions rate leak count last ts
  unfolding allowed_count admissions
  counts_admissions [] count last end m h h1 o h2 = refl
  counts_admissions (now ∷ ts) count last end m h h1 o h2 =
      let now_early = Ordered-end now end ts o.1 in
      let c = level leak count last now in
      rw (allow_at count last now m h h1 o.0 (omega arith)) (elim (Bool-cases (leb rate c)) [
        | inl full ↦
            let rest =
              counts_admissions ts count last end m h h1 (Ordered-earlier last now end ts o.0 o.1)
                h2 in
            rw (refuses c now m full, full) (omega (arith, rest))
        | inr room ↦
            let one = admits c now m (omega arith) room in
            let rest =
              counts_admissions ts (suc c) now end (admitting c now m).1 one.1
                (ground (arith, room)) o.1 h2 in
            rw (room, one.0) (omega (arith, rest))
      ])

  -- Over a server that keeps what is set for the window, whose clock agrees with the callers', a bucket
  -- that was set to `count` at `last` admits, of the calls at any times in order up to `end`, at most what
  -- it has room for and one for each whole `leakRate` that passes: where the window is of whole
  -- milliseconds, and long enough for `rate` calls to leak.
  pub leaky_bound :
      (ts : List ℕ) (count last end : ℕ) (m : R)
      → Contents count last m
      → count ≤ rate
      → Ordered last end ts
      → end ≤ max_int64
      → allowed_count client bucket key ts m + count ≤ rate + (end - last) / leak
  leaky_bound ts count last end m h h1 o h2 = rw (counts_admissions ts count last end m h h1 o h2) (
      bound (admissions rate leak count last ts) rate leak count (end - last) leaks
        (admissions_times rate leak ts count last end h1 o))
