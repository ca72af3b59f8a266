-- ===== src/Redis/SlidingWindow/Recent.antt =====
-- The calls that are recent, and the elements of the sorted set that stand for them.
use ratelimiter_redis.Base.{
  inr, ap, inl, not, Bool-cases, ◌&&◌, if◌then◌else◌, ◌/◌, ◌≤◌, ◌*◌, ◌+◌, ◌<◌, ℕ, ◌≡◌, ◌≢◌, refl,
  String, false, List, [], ◌∷◌, arith, ltb, All, map,
}
use ratelimiter_redis.Base.Int.{InInt64, pos_part, sub64, leb_ℤ, ℤ, pos, ◌+ℤ◌, max_int64}
use ratelimiter_redis.Base.Clock.{unix_milli}
use ratelimiter_redis.Base.Decimal.{itoa-injective}
use ratelimiter_redis.Base.Text.{itoa}
use ratelimiter_redis.Redis.SlidingWindow.{window_start}

abbrev pub ms : ℕ → ℕ
ms t = t / 1000000

-- Of earlier calls, those whose milliseconds on the clock are fewer than `w` before those of `t`.
abbrev pub recent : ℕ → ℕ → List ℕ → List ℕ
recent w t [] = []
recent w t (e ∷ es) = if ltb (ms t) (ms e + w) then e ∷ recent w t es else recent w t es

-- The elements of a sorted set, a member and its score each.
abbrev pub ZSet : Type 0
ZSet = List (String × ℤ)

-- Without the scores from 0 to `lo`.
abbrev pub above : ℤ → ZSet → ZSet
above lo [] = []
above lo ((m, score) ∷ es) =
    if leb_ℤ (pos 0) score && leb_ℤ score lo then above lo es else (m, score) ∷ above lo es

abbrev pub IsNew : String → ZSet → Type 0
IsNew m = All (λ e. m ≢ e.0)

abbrev pub entry : ℕ → String × ℤ
entry t = (itoa (pos t), pos (ms t))

pub stays_old :
    (w s u e : ℕ) → s ≤ u → ltb (ms s) (ms e + w) ≡ false → ltb (ms u) (ms e + w) ≡ false
stays_old w s u e h p = ground (arith, p)

pub too_old : (w s u e : ℕ) → s + w * 1000000 ≤ u → e ≤ s → ltb (ms u) (ms e + w) ≡ false
too_old w s u e h h' = ground arith

pub recent-recent : (w s u : ℕ) (es : List ℕ) → s ≤ u → recent w u (recent w s es) ≡ recent w u es
recent-recent w s u [] h = refl
recent-recent w s u (e ∷ es) h =
    let ih = recent-recent w s u es h in
    elim (Bool-cases (ltb (ms s) (ms e + w))) [
      | inl p ↦ rw p (elim (Bool-cases (ltb (ms u) (ms e + w))) [
        | inl q ↦ rw q (ap (◌∷◌ e) ih)
        | inr q ↦ rw q ih
      ])
      | inr p ↦ rw (p, stays_old w s u e h p) ih
    ]

pub recent-old :
    (w s u : ℕ) (es : List ℕ) → s + w * 1000000 ≤ u → All (λ e. e ≤ s) es → recent w u es ≡ []
recent-old w s u [] h a = refl
recent-old w s u (e ∷ es) h (le, a) =
    let ih = recent-old w s u es h a in rw (too_old w s u e h le) ih

pub recent-All : (w s t : ℕ) (es : List ℕ) → All (λ e. e ≤ s) es → All (λ e. e ≤ s) (recent w t es)
recent-All w s t [] a = tt
recent-All w s t (e ∷ es) (le, a) =
    let ih = recent-All w s t es a in
    elim (Bool-cases (ltb (ms t) (ms e + w))) [ inl p ↦ rw p (le, ih) | inr p ↦ rw p ih ]

pub older-All : (s t : ℕ) (es : List ℕ) → s ≤ t → All (λ e. e ≤ s) es → All (λ e. e ≤ t) es
older-All s t [] h a = tt
older-All s t (e ∷ es) h (le, a) = (omega arith, older-All s t es h a)

pub entries-IsNew :
    (s t : ℕ) (es : List ℕ)
    → s < t
    → t ≤ max_int64
    → All (λ e. e ≤ s) es
    → IsNew (itoa (pos t)) (map entry es)
entries-IsNew s t [] h h' a = tt
entries-IsNew s t (e ∷ es) h h' (le, a) = (
  λ same.
      let eq =
        ap pos_part
          (itoa-injective (pos t) (pos e) (h', omega arith) (omega arith, omega arith) same) in
      let no : ⊥ = omega (arith, eq) in elim no [ ],
  entries-IsNew s t es h h' a,
)

-- The text of the end of what is removed.
abbrev pub lo : ℕ → ℕ → ℤ
lo w t = unix_milli (window_start (pos t) (pos (w * 1000000)))

pub test_lo :
    (w t e : ℕ)
    → w * 1000000 ≤ max_int64
    → (leb_ℤ (pos 0) (pos (ms e)) && leb_ℤ (pos (ms e)) (lo w t)) ≡ not (ltb (ms t) (ms e + w))
unfolding unix_milli window_start sub64 ◌+ℤ◌
test_lo w t e h = ground arith

pub lo-InInt64 : (w t : ℕ) → w * 1000000 ≤ max_int64 → t ≤ max_int64 → InInt64 (lo w t)
unfolding unix_milli window_start sub64 ◌+ℤ◌
lo-InInt64 w t h h' = ground arith

pub above-entries :
    (w t : ℕ) (es : List ℕ)
    → w * 1000000 ≤ max_int64
    → above (lo w t) (map entry es) ≡ map entry (recent w t es)
above-entries w t [] h = refl
above-entries w t (e ∷ es) h =
    let ih = above-entries w t es h in
    elim (Bool-cases (ltb (ms t) (ms e + w))) [
      | inl p ↦ rw (p, test_lo w t e h, p) (ap (◌∷◌ (entry e)) ih)
      | inr p ↦ rw (p, test_lo w t e h, p) ih
    ]
