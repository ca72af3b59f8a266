-- ===== src/Leaky/Bound.antt =====
-- How many calls of `Allow` a leaky bucket admits.
use native.Mathlib.Nat.{
  div-mul-le_self, mul-le-mul_right, add-mul, le-div_iff_mul-le, add-mul-div_right,
}
use ratelimiter_redis.Base.{
  ℕ, suc, ◌+◌, ◌-◌, ◌*◌, ◌/◌, ◌≤◌, ◌<◌, ◌≡◌, List, [], ◌∷◌, arith, leb, if◌then◌else◌, Bool-cases,
  inl, inr,
}

-- The bucket over numbers: the count after the leak.
abbrev pub level : ℕ → ℕ → ℕ → ℕ → ℕ
level leak count last now = count - (now - last) / leak

-- How many of the calls at the times are admitted.
unfoldable pub admissions : ℕ → ℕ → ℕ → ℕ → List ℕ → ℕ
admissions rate leak count last [] = 0
admissions rate leak count last (now ∷ ts) =
    let c = level leak count last now in
    let refused = admissions rate leak count last ts in
    let more = suc (admissions rate leak (suc c) now ts) in if leb rate c then refused else more

-- The times are in order, from `last` on, and none after `end`.
abbrev pub Ordered : ℕ → ℕ → List ℕ → Type 0
Ordered last end [] = last ≤ end
Ordered last end (t ∷ ts) = (last ≤ t) × Ordered t end ts

suc_times : (a l : ℕ) → suc a * l ≡ a * l + l
suc_times a l = grind arith

-- What is taken off a count and what is left of it.
split_times : (c q l : ℕ) → c * l ≤ (c - q) * l + q * l
split_times c q l =
    let whole = mul-le-mul_right {m = c} {n = c - q + q} l (omega arith) in
    let parts = add-mul (c - q) q l in omega arith

bucket_step :
    (a rate leak count last now end : ℕ)
    → last ≤ now
    → now ≤ end
    → a * leak + suc (level leak count last now) * leak ≤ rate * leak + (end - now)
    → suc a * leak + count * leak ≤ rate * leak + (end - last)
bucket_step a rate leak count last now end h h' ih =
    let leaked = (now - last) / leak in
    let time = div-mul-le_self (now - last) leak in
    let grown = suc_times (level leak count last now) leak in
    let all = split_times count ((now - last) / leak) leak in
    let more = suc_times a leak in omega arith

pub Ordered-earlier :
    (last t end : ℕ) (ts : List ℕ) → last ≤ t → Ordered t end ts → Ordered last end ts
Ordered-earlier last t end [] h o = omega arith
Ordered-earlier last t end (u ∷ ts) h o = (omega arith, o.1)

pub Ordered-end : (last end : ℕ) (ts : List ℕ) → Ordered last end ts → last ≤ end
Ordered-end last end [] o = o
Ordered-end last end (t ∷ ts) o = let later = Ordered-end t end ts o.1 in omega (arith, o.0)

pub admissions_times :
    (rate leak : ℕ) (ts : List ℕ) (count last end : ℕ)
    → count ≤ rate
    → Ordered last end ts
    → admissions rate leak count last ts * leak + count * leak ≤ rate * leak + (end - last)
unfolding admissions
admissions_times rate leak [] count last end h o = let fits = mul-le-mul_right leak h in omega arith
admissions_times rate leak (now ∷ ts) count last end h o =
    elim (Bool-cases (leb rate (level leak count last now))) [
      | inl full ↦
          rw full (
            admissions_times rate leak ts count last end h
              (Ordered-earlier last now end ts o.0 o.1))
      | inr room ↦ rw room (
          bucket_step (admissions rate leak (suc (level leak count last now)) now ts) rate leak
            count last now end o.0 (Ordered-end now end ts o.1)
            (admissions_times rate leak ts (suc (level leak count last now)) now end
              (ground (arith, room)) o.1))
    ]

-- rate, and one for each leak since `last`.
pub bound :
    (a rate leak count time : ℕ)
    → 0 < leak
    → a * leak + count * leak ≤ rate * leak + time
    → a + count ≤ rate + time / leak
bound a rate leak count time pos_leak h =
    let product = add-mul a count leak in
    let sum = add-mul-div_right time rate pos_leak in
    let least : a + count ≤ (time + rate * leak) / leak =
      (le-div_iff_mul-le pos_leak).1 (omega arith) in
    omega arith
