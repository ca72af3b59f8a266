-- ===== src/Quota/Charging.antt =====
-- What `CheckAll` does to the store.
use mathlib.Core.List.{◌++◌}
use ratelimiter_redis.Base.{
  if◌then◌else◌, length, ◌⊎◌, sym, String, ◌≡◌, refl, ap, Option, none, some, Result, ok, err, List,
  [], ◌∷◌, Bool-cases, inl, inr, arith,
}
use ratelimiter_redis.Base.Int.{ltb_ℤ, ◌<ℤ◌, ℤ, ◌≤ℤ◌}
use ratelimiter_redis.Base.Clock.{Moment}
use ratelimiter_redis.Store.{Store}
use ratelimiter_redis.Quota.{Quota, quota_key, Moments, later, judge, check_all}

-- A count within the quota's limit.
abbrev pub Within : Quota → Result ℤ → Type 0
Within q (err e) = ⊥
Within q (ok count) = count ≤ℤ q.limit

-- A count above it.
abbrev pub Exceeds : Quota → Result ℤ → Type 0
Exceeds q (err e) = ⊥
Exceeds q (ok count) = q.limit <ℤ count

module _ {M : Type 0} (store : Store M) (decrement : String → M → Result (Unit {0}) × M)
    (request_key : String) where
  abbrev pub one : Moment → Quota → M → Result ℤ × M
  one mo q m = store.increment mo (quota_key q request_key) q.window m

  -- The store after one call of `Increment` for each quota.
  unfoldable pub charged : Moments → List Quota → M → M
  charged mo [] m = m
  charged mo (q ∷ qs) m = charged (later mo) qs (one (mo 0) q m).1

  -- Each of these calls returns a count within the limit.
  abbrev pub AllWithin : Moments → List Quota → M → Type 0
  AllWithin mo [] m = Unit {0}
  AllWithin mo (q ∷ qs) m = Within q (one (mo 0) q m).0 × AllWithin (later mo) qs (one (mo 0) q m).1

  judge-Within :
      (q : Quota) (key : String) (result : Result ℤ) (m : M) (rest : Result (Option Quota) × M)
      → Within q result
      → judge store decrement q key result m rest ≡ rest
  judge-Within q key (err e) m rest h = elim h [ ]
  judge-Within q key (ok count) m rest h = ground arith

  -- A request passes exactly if every quota counts it within its limit; each quota is then charged once.
  pub passes_within :
      (qs : List Quota) (mo : Moments) (m : M)
      → AllWithin mo qs m
      → check_all store decrement mo request_key qs m ≡ (ok none, charged mo qs m)
  unfolding check_all charged
  passes_within [] mo m h = refl
  passes_within (q ∷ qs) mo m h =
      rw (judge-Within q (quota_key q request_key) _ _ _ h.0)
        (passes_within qs (later mo) (one (mo 0) q m).1 h.1)

  -- How a run of `CheckAll` comes to block at `q`, and to end with the store `end`.
  pub record BlockedAt (mo : Moments) (m : M) (qs : List Quota) (q : Quota) (end : M) : Type 0 where
    pub before : List Quota
    pub after : List Quota
    pub found : qs ≡ before ++ q ∷ after
    pub within : AllWithin mo before m
    pub exceeds : Exceeds q (one (mo (length before)) q (charged mo before m)).0
    pub ends :
        end
        ≡ (decrement
            (quota_key q request_key)
            (one (mo (length before)) q (charged mo before m)).1).1

  ok_some_inj : (p q : Quota) → ok (some p) ≡ ok (some q) → p ≡ q
  ok_some_inj p q e = ground (arith, e)

  judge_cases :
      (q p : Quota) (key : String) (result : Result ℤ) (m : M) (rest : Result (Option Quota) × M)
      → (judge store decrement p key result m rest).0 ≡ ok (some q)
      → (Within p result × (judge store decrement p key result m rest ≡ rest))
        ⊎ ((q ≡ p)
            × Exceeds p result
            × ((judge store decrement p key result m rest).1 ≡ (decrement key m).1))
  judge_cases q p key (err x) m rest e = ground (arith, e)
  judge_cases q p key (ok count) m rest e = elim (Bool-cases (ltb_ℤ p.limit count)) [
    | inl h ↦ inr (
      sym (
          ok_some_inj p q
            (rw (sym (ap (λ b. (if b then (ok (some p), (decrement key m).1) else rest).0) h)) e)),
      ground (arith, h),
      rw h refl,
    )
    | inr h ↦ inl (ground (arith, h), rw h refl)
  ]

  blocked_later :
      (q p : Quota) (qs : List Quota) (mo : Moments) (m end : M)
      → Within p (one (mo 0) p m).0
      → BlockedAt (later mo) (one (mo 0) p m).1 qs q end
      → BlockedAt mo m (p ∷ qs) q end
  unfolding charged
  blocked_later q p qs mo m end h b = record {
    before = p ∷ b.before;
    after = b.after;
    found = ap (◌∷◌ p) b.found;
    within = (h, b.within);
    exceeds = b.exceeds;
    ends = b.ends;
  }

  blocked_here :
      (q p : Quota) (qs : List Quota) (mo : Moments) (m end : M)
      → q ≡ p
      → Exceeds p (one (mo 0) p m).0
      → end ≡ (decrement (quota_key p request_key) (one (mo 0) p m).1).1
      → BlockedAt mo m (p ∷ qs) q end
  unfolding charged
  blocked_here q p qs mo m end same h e = record {
    before = [];
    after = qs;
    found = ap (λ x. x ∷ qs) (sym same);
    within = tt;
    exceeds = rw same h;
    ends = rw same e;
  }

  -- Where `CheckAll` returns a quota, the earlier ones counted the request within their limits and it
  -- exceeds this one's; only this one's count is taken back, so that the blocked request stays charged to
  -- the earlier quotas, and the later ones are not touched.
  pub blocked_keeps_charges :
      (qs : List Quota) (mo : Moments) (m : M) (q : Quota)
      → (check_all store decrement mo request_key qs m).0 ≡ ok (some q)
      → BlockedAt mo m qs q (check_all store decrement mo request_key qs m).1
  unfolding check_all charged
  blocked_keeps_charges [] mo m q e = ground (arith, e)
  blocked_keeps_charges (p ∷ qs) mo m q e =
      let m' = (one (mo 0) p m).1 in
      elim (judge_cases q p (quota_key p request_key) (one (mo 0) p m).0 m'
        (check_all store decrement (later mo) request_key qs m') e) [
          | inl (h, go_on) ↦
              blocked_later q p qs mo m _ h
                (rw go_on (blocked_keeps_charges qs (later mo) m' q (rw (sym go_on) e)))
          | inr (same, h, ends) ↦ blocked_here q p qs mo m _ same h ends
        ]
