-- ===== src/Metrics/Interleaving.antt =====
-- Many goroutines record at once: between the two additions of one, others may run.
use native.Mathlib.Nat.{zero-add, suc-add}
use ratelimiter_redis.Base.{sym, ◌∙◌, ap, ℕ, zero, suc, ◌+◌, ◌≡◌, refl}
use ratelimiter_redis.Base.Int.{ℤ, pos, add64, add64_assoc, add64_swap}
use ratelimiter_redis.Metrics.{Metrics, new_metrics, add_total, add_allowed, add_blocked, reset}

-- The counters, and how many goroutines stand between the additions of `recordAllowed` and of
-- `recordBlocked`.
pub record Shared : Type 0 where
  pub metrics : Metrics
  pub allowing : ℕ
  pub blocking : ℕ

-- One atomic addition of some goroutine.
pub data Step (s t : Shared) : Type 0 where
  begins_allowed :
      t ≡ record { metrics = add_total s.metrics; allowing = suc s.allowing; blocking = s.blocking }
      → Step s t
  ends_allowed :
      (n : ℕ)
      → s.allowing ≡ suc n
      → t ≡ record { metrics = add_allowed s.metrics; allowing = n; blocking = s.blocking }
      → Step s t
  begins_blocked :
      t ≡ record { metrics = add_total s.metrics; allowing = s.allowing; blocking = suc s.blocking }
      → Step s t
  ends_blocked :
      (n : ℕ)
      → s.blocking ≡ suc n
      → t ≡ record { metrics = add_blocked s.metrics; allowing = s.allowing; blocking = n }
      → Step s t

pub data Reach (s : Shared) : Shared → Type 0 where
  here : Reach s s
  next : {t u : Shared} → Reach s t → Step t u → Reach s u

-- n times an addition of 1
abbrev pub added : ℕ → ℤ → ℤ
added zero a = a
added (suc n) a = add64 (added n a) (pos 1)

added-add64 : (n : ℕ) (a b : ℤ) → added n (add64 a b) ≡ add64 (added n a) b
added-add64 zero a b = refl
added-add64 (suc n) a b = rw (added-add64 n a b) (add64_swap (added n a) b (pos 1))

added_twice :
    (n m : ℕ) (a : ℤ) → added n (added m (add64 a (pos 1))) ≡ add64 (added n (added m a)) (pos 1)
added_twice n m a = ap (added n) (added-add64 m a (pos 1)) ∙ added-add64 n (added m a) (pos 1)

-- The total, with `lost` more, is what the two other counters sum to with the requests in flight.
abbrev pub IsBalanced : ℕ → Shared → Type 0
IsBalanced lost s =
    added lost s.metrics.total
    ≡ added s.allowing (added s.blocking (add64 s.metrics.allowed s.metrics.blocked))

counts_one :
    (a b : ℕ) (x y : ℤ)
    → (added a (added b (add64 (add64 x (pos 1)) y))
        ≡ add64 (added a (added b (add64 x y))) (pos 1))
      × (added a (added b (add64 x (add64 y (pos 1))))
          ≡ add64 (added a (added b (add64 x y))) (pos 1))
counts_one a b x y = (
  ap (λ z. added a (added b z)) (add64_swap x (pos 1) y) ∙ added_twice a b (add64 x y),
  ap (λ z. added a (added b z)) (sym (add64_assoc x y (pos 1))) ∙ added_twice a b (add64 x y),
)

Step-IsBalanced : (lost : ℕ) (s t : Shared) → Step s t → IsBalanced lost s → IsBalanced lost t
Step-IsBalanced lost s t (begins_allowed e) h =
    rw e (added-add64 lost s.metrics.total (pos 1) ∙ ap (λ z. add64 z (pos 1)) h)
Step-IsBalanced lost s t (ends_allowed n e f) h =
    rw f (h ∙ rw e (sym (counts_one n s.blocking s.metrics.allowed s.metrics.blocked).0))
Step-IsBalanced lost s t (begins_blocked e) h = rw e (
    added-add64 lost s.metrics.total (pos 1)
    ∙ ap (λ z. add64 z (pos 1)) h
    ∙ sym (added-add64 s.allowing _ (pos 1)))
Step-IsBalanced lost s t (ends_blocked n e f) h = rw f (
    h
    ∙ rw e (
        added-add64 s.allowing (added n (add64 s.metrics.allowed s.metrics.blocked)) (pos 1)
        ∙ sym (counts_one s.allowing n s.metrics.allowed s.metrics.blocked).1))

Reach-IsBalanced : (lost : ℕ) {s t : Shared} → Reach s t → IsBalanced lost s → IsBalanced lost t
Reach-IsBalanced lost here h = h
Reach-IsBalanced lost (next r st) h = Step-IsBalanced lost _ _ st (Reach-IsBalanced lost r h)

abbrev pub quiet : Metrics → Shared
quiet m = record { metrics = m; allowing = 0; blocking = 0 }

-- From fresh counters, while no `Reset` is called, at every moment of every interleaving of requests that
-- are recorded, the total is the sum of the two others and of the requests that have been counted in the
-- total alone, in the arithmetic of `int64`.
pub total_balanced :
    {s : Shared}
    → Reach (quiet new_metrics) s
    → s.metrics.total
      ≡ added s.allowing (added s.blocking (add64 s.metrics.allowed s.metrics.blocked))
unfolding add64
total_balanced r = Reach-IsBalanced 0 r refl

added-added : (a b : ℕ) (x : ℤ) → added (a + b) x ≡ added a (added b x)
added-added zero b x = rw zero-add
added-added (suc a) b x = rw suc-add (ap (λ z. add64 z (pos 1)) (added-added a b x))

abbrev pub reset_shared : Shared → Shared
reset_shared s = record s { metrics = reset s.metrics }

-- A `Reset` that no other goroutine interrupts, while `n` requests are in flight, makes the total fall
-- `n` short of the sum of the two others, for good: so it is at each later moment with no request in
-- flight.
pub reset_falls_short :
    (s : Shared) {t : Shared}
    → Reach (reset_shared s) t
    → t.allowing ≡ 0
    → t.blocking ≡ 0
    → added (s.allowing + s.blocking) t.metrics.total ≡ add64 t.metrics.allowed t.metrics.blocked
unfolding add64
reset_falls_short s r a b =
    let start = added-added s.allowing s.blocking (pos 0) in
    let last = Reach-IsBalanced (s.allowing + s.blocking) r start in rw (a, b) at last
