-- ===== src/Redis/TokenBucket/Ideal.antt =====
-- The token bucket as it is meant: a level that rises all the time up to its capacity, in units of which
-- `unit` are a token, and of which `p` come in each millisecond. Times are nanoseconds.
use native.Mathlib.Nat.{add-mul}
use ratelimiter_redis.Leaky.Bound.{Ordered, Ordered-end}
use ratelimiter_redis.Base.{
  err, ap, ok, map, Result, ℕ, suc, ◌+◌, ◌-◌, ◌*◌, ◌/◌, ◌≤◌, ◌≡◌, refl, Bool, true, false, List, [],
  ◌∷◌, arith, ltb, if◌then◌else◌, Bool-cases, inl, inr,
}

abbrev pub ms : ℕ → ℕ
ms t = t / 1000000

-- What comes in between two times.
abbrev pub inflow : ℕ → ℕ → ℕ → ℕ
inflow p s t = (ms t - ms s) * p

abbrev pub capped : ℕ → ℕ → ℕ
capped cap x = if ltb cap x then cap else x

-- The answers to the calls, where the bucket held `level` at `last`.
abbrev pub ideal : ℕ → ℕ → ℕ → ℕ → ℕ → List ℕ → List Bool
ideal cap unit p level last [] = []
ideal cap unit p level last (t ∷ ts) =
    let now = capped cap (level + inflow p last t) in
    let refused = ideal cap unit p now t ts in
    let taken = ideal cap unit p (now - unit) t ts in
    if ltb now unit then false ∷ refused else true ∷ taken

abbrev pub count_true : List Bool → ℕ
count_true [] = 0
count_true (b ∷ bs) = if b then suc (count_true bs) else count_true bs

pub inflow_sum : (p s t u : ℕ) → s ≤ t → t ≤ u → inflow p s u ≡ inflow p s t + inflow p t u
inflow_sum p s t u h h' =
    let sum : ms u - ms s ≡ ms t - ms s + (ms u - ms t) = omega arith in
    rw sum (add-mul (ms t - ms s) (ms u - ms t) p)

suc_times : (a l : ℕ) → suc a * l ≡ a * l + l
suc_times a l = grind arith

pub ideal_bound :
    (cap unit p : ℕ) (ts : List ℕ) (level last end : ℕ)
    → level ≤ cap
    → Ordered last end ts
    → count_true (ideal cap unit p level last ts) * unit ≤ level + inflow p last end
ideal_bound cap unit p [] level last end h o = omega arith
ideal_bound cap unit p (t ∷ ts) level last end h (le, o) =
    let now = capped cap (level + inflow p last t) in
    let sum = inflow_sum p last t end le (Ordered-end t end ts o) in
    let refused = ideal_bound cap unit p ts now t end (ground arith) o in
    let taken = ideal_bound cap unit p ts (now - unit) t end (ground arith) o in
    let more = suc_times (count_true (ideal cap unit p (now - unit) t ts)) unit in
    elim (Bool-cases (ltb now unit)) [
      | inl e ↦ rw e (ground (arith, refused, sum))
      | inr e ↦ rw e (ground (arith, taken, sum, more, e))
    ]

-- How many answers allow.
abbrev pub granted : List (Result Bool) → ℕ
granted [] = 0
granted (ok b ∷ ds) = if b then suc (granted ds) else granted ds
granted (err e ∷ ds) = granted ds

pub granted-ok : (bs : List Bool) → granted (map ok bs) ≡ count_true bs
granted-ok [] = refl
granted-ok (true ∷ bs) = ap suc (granted-ok bs)
granted-ok (false ∷ bs) = granted-ok bs
