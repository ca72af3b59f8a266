-- ===== src/Adaptive/Bounds.antt =====
-- The limit that the clients and the handlers below are told.
use ratelimiter_redis.Base.{
  ◌-◌, ◌^◌, ℕ, ◌≤◌, ◌≡◌, refl, ap, ◌∙◌, true, false, some, ◌∷◌, Bool-cases, inl, inr, arith,
}
use ratelimiter_redis.Base.Int.{pos, sub64, max_int64}
use ratelimiter_redis.Base.Text.{itoa}
use ratelimiter_redis.Http.{set_header, Request, Handler}
use ratelimiter_redis.Adaptive.Digits.{adaptive_itoa-itoa}
use ratelimiter_redis.Adaptive.Limiter.{
  LoadFloat, AdaptiveConfig, AdaptiveLimiter, limit_at, reduction, with_adaptive_limit,
}

-- What is used of float64: the order of numbers, and that rounding keeps an order between exact results.
-- `IsSmall` holds of numbers, no NaN or infinity among them, whose differences do not overflow.
pub record Monotone {F : Type 0} (float : LoadFloat F) (IsSmall : F → Type 0) : Type 0 where
  pub total : (a b : F) → IsSmall a → IsSmall b → float.le a b ≡ false → float.le b a ≡ true
  pub le_trans : (a b c : F) → float.le a b ≡ true → float.le b c ≡ true → float.le a c ≡ true
  pub sub_mono :
      (a b c : F)
      → IsSmall a
      → IsSmall b
      → IsSmall c
      → float.le a b ≡ true
      → float.le (float.sub a c) (float.sub b c) ≡ true
  pub sub_from :
      (a c : F)
      → IsSmall a
      → IsSmall c
      → float.le c a ≡ true
      → float.le (float.of_int (pos 0)) (float.sub a c) ≡ true
  pub sub_positive :
      (b c : F)
      → IsSmall b
      → IsSmall c
      → float.le b c ≡ false
      → float.le (float.sub b c) (float.of_int (pos 0)) ≡ false
  -- A quotient of differences from 0 to 1.
  pub div_unit :
      (a b c : F)
      → IsSmall a
      → IsSmall b
      → IsSmall c
      → let d = float.sub a c in
        let e = float.sub b c in
        float.le (float.of_int (pos 0)) d ≡ true
        → float.le d e ≡ true
        → float.le e (float.of_int (pos 0)) ≡ false
        → (float.le (float.of_int (pos 0)) (float.div d e) ≡ true)
          × (float.le (float.div d e) (float.of_int (pos 1)) ≡ true)
  pub mul_unit :
      (q : F) (n : ℕ)
      → n ≤ 2 ^ 53
      → float.le (float.of_int (pos 0)) q ≡ true
      → float.le q (float.of_int (pos 1)) ≡ true
      → let x = float.mul q (float.of_int (pos n)) in
        (float.le (float.of_int (pos 0)) x ≡ true) × (float.le x (float.of_int (pos n)) ≡ true)
  pub to_int_within :
      (x : F) (n : ℕ)
      → n ≤ 2 ^ 53
      → float.le (float.of_int (pos 0)) x ≡ true
      → float.le x (float.of_int (pos n)) ≡ true
      → (m : ℕ) × (float.to_int x ≡ pos m) × (m ≤ n)

-- Between the marks, the ratio times a number from 0 on rounds to one from 0 to it.
interpolates :
    {F : Type 0} (float : LoadFloat F) (IsSmall : F → Type 0)
    → Monotone float IsSmall
    → (low high load : F) (n : ℕ) → IsSmall low
    → IsSmall high
    → IsSmall load
    → n ≤ 2 ^ 53
    → float.le high load ≡ false
    → float.le load low ≡ false
    → (m : ℕ) × (float.to_int
          (float.mul (float.div (float.sub load low) (float.sub high low)) (float.of_int (pos n)))
        ≡ pos m)
      × (m ≤ n)
interpolates float IsSmall laws low high load n sl sh sx exact below above =
    let up = laws.total load low sx sl above in
    let down = laws.total high load sh sx below in
    let apart : float.le high low ≡ false = elim (Bool-cases (float.le high low)) [
      | inl e ↦
          let absurd : ⊥ = ground (arith, laws.le_trans high low load e up, below) in
          elim absurd [ ]
      | inr e ↦ e
    ] in
    let q =
      laws.div_unit load high low sx sh sl (laws.sub_from load low sx sl up)
        (laws.sub_mono load high low sx sh sl down) (laws.sub_positive high low sh sl apart) in
    let ratio = float.div (float.sub load low) (float.sub high low) in
    let x = laws.mul_unit ratio n exact q.0 q.1 in
    laws.to_int_within (float.mul ratio (float.of_int (pos n))) n exact x.0 x.1

sub_within :
    (lo hi m : ℕ)
    → lo ≤ hi
    → hi ≤ max_int64
    → m ≤ hi - lo
    → (l : ℕ) × (sub64 (pos hi) (pos m) ≡ pos l) × (lo ≤ l) × (l ≤ hi)
unfolding sub64
sub_within lo hi m h h' h'' = (hi - m, ground arith, omega arith, omega arith)

sub_span : (lo hi : ℕ) → lo ≤ hi → hi ≤ max_int64 → sub64 (pos hi) (pos lo) ≡ pos (hi - lo)
unfolding sub64
sub_span lo hi h h' = ground arith

module _ {F : Type 0} (float : LoadFloat F) (IsSmall : F → Type 0) (laws : Monotone float IsSmall)
    (lo hi : ℕ) (ordered : lo ≤ hi) (exact : hi ≤ 2 ^ 53) where
  -- The limits of a configuration.
  abbrev pub HasLimits : AdaptiveConfig F → Type 0
  HasLimits cfg =
      (cfg.min_limit ≡ pos lo)
      × (cfg.max_limit ≡ pos hi)
      × IsSmall cfg.low_load_mark
      × IsSmall cfg.high_load_mark

  reduction_within :
      (cfg : AdaptiveConfig F) (load : F)
      → HasLimits cfg
      → IsSmall load
      → float.le cfg.high_load_mark load ≡ false
      → float.le load cfg.low_load_mark ≡ false
      → (m : ℕ) × (reduction float cfg load ≡ pos m) × (m ≤ hi - lo)
  unfolding reduction
  reduction_within cfg load (h, h', sl, sh) sx below above =
      let (m, e, le) =
        interpolates float IsSmall laws cfg.low_load_mark cfg.high_load_mark load (hi - lo) sl sh sx
          (omega arith) below above in
      let span : sub64 cfg.max_limit cfg.min_limit ≡ pos (hi - lo) =
        rw (h, h') (sub_span lo hi ordered (omega arith)) in
      (
        m,
        ap
              (λ n. float.to_int (
                float.mul
                  (float.div (float.sub load cfg.low_load_mark)
                    (float.sub cfg.high_load_mark cfg.low_load_mark))
                  (float.of_int n)))
              span
            ∙ e,
        le,
      )

  limit_within :
      (cfg : AdaptiveConfig F) (load : F)
      → HasLimits cfg
      → IsSmall load
      → (l : ℕ) × (limit_at float cfg load ≡ pos l) × (lo ≤ l) × (l ≤ hi)
  unfolding limit_at
  limit_within cfg load (h, h', sl, sh) sx = elim (Bool-cases (float.le cfg.high_load_mark load)) [
    | inl high ↦ (lo, rw high h, omega arith, ordered)
    | inr below ↦ elim (Bool-cases (float.le load cfg.low_load_mark)) [
      | inl low ↦ (hi, rw (below, low) h', ordered, omega arith)
      | inr above ↦
          let (m, e, le) = reduction_within cfg load (h, h', sl, sh) sx below above in
          let (l, e', lo_le, le_hi) = sub_within lo hi m ordered (omega arith) le in
          let left : sub64 cfg.max_limit (reduction float cfg load) ≡ pos l =
            ap (λ n. sub64 n (reduction float cfg load)) h' ∙ ap (sub64 (pos hi)) e ∙ e' in
          (l, rw (below, above) left, lo_le, le_hi)
    ]
  ]

  -- Where the load and the marks are numbers, no NaN among them, whose differences do not overflow, a request
  -- makes the limit one from `MinLimit` to `MaxLimit`, whatever it was before, and that is written into the
  -- response's header in decimal digits before the handler below is called: where the two limits are in
  -- order, not negative, and no more than a float64 counts exactly.
  pub limit_told :
      {S : Type 0} (load : F) (next : Handler S) (r : Request) (a : AdaptiveLimiter F) (s : S)
      → HasLimits a.cfg
      → IsSmall load
      → (l : ℕ) × (lo ≤ l)
        × (l ≤ hi)
        × (with_adaptive_limit float (some load) next r (a, s) ≡ (
          set_header "X-RateLimit-Adaptive-Limit" (itoa (pos l)) ∷ (next r s).0,
          (record a { current_limit = pos l }, (next r s).1),
        ))
  unfolding with_adaptive_limit
  limit_told load next r a s h small =
      let (l, e, lo_le, le_hi) = limit_within a.cfg load h small in
      (l, lo_le, le_hi, rw (e, (adaptive_itoa-itoa l).0) refl)
