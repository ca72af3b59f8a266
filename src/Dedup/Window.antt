-- ===== src/Dedup/Window.antt =====
-- How long a fingerprint is held.
use ratelimiter_redis.Base.{
  ap, String, ◌≡◌, ◌≢◌, true, false, some, List, [], ◌∷◌, arith, eq_iff, All,
}
use ratelimiter_redis.Base.Int.{◌+ℤ◌, ◌≤ℤ◌, ◌<ℤ◌}
use ratelimiter_redis.Base.Clock.{Time, Moment}
use ratelimiter_redis.Dedup.{DedupStore, seen, is_duplicate, evict, Op, checks, evicts, step, run}

-- The entry of `f` lasts until `exp` at least.
abbrev LastsTo : Time → String → DedupStore → Type 0
LastsTo exp f d = (x : Time) × (d.entries f ≡ some x) × (exp ≤ℤ x)

check-LastsTo :
    (exp : Time) (f g : String) (mo : Moment) (d : DedupStore)
    → mo.first <ℤ exp
    → LastsTo exp f d
    → LastsTo exp f (is_duplicate mo g d).1
unfolding is_duplicate
check-LastsTo exp f g mo d lt (x, e, le) = (x, ground (arith, eq_iff f g, eq_iff g f), le)

evict-LastsTo :
    (exp : Time) (f : String) (now : Time) (d : DedupStore)
    → now <ℤ exp
    → LastsTo exp f d
    → LastsTo exp f (evict now d)
unfolding evict
evict-LastsTo exp f now d lt (x, e, le) = (x, ground arith, le)

run-LastsTo :
    (exp : Time) (f : String) (ops : List (Moment × Op)) (d : DedupStore)
    → All (λ o. o.0.first <ℤ exp) ops
    → LastsTo exp f d
    → LastsTo exp f (run ops d).1
unfolding run step
run-LastsTo exp f [] d early h = h
run-LastsTo exp f ((mo, checks g) ∷ ops) d early h =
    run-LastsTo exp f ops _ early.1 (check-LastsTo exp f g mo d early.0 h)
run-LastsTo exp f ((mo, evicts) ∷ ops) d early h =
    run-LastsTo exp f ops _ early.1 (evict-LastsTo exp f mo.first d early.0 h)

accepted-LastsTo :
    (a : Moment) (f : String) (d : DedupStore)
    → (is_duplicate a f d).0 ≡ false
    → (is_duplicate a f d).1.entries f ≡ some (a.second +ℤ d.ttl)
unfolding is_duplicate
accepted-LastsTo a f d h = ground (arith, eq_iff f f)

LastsTo-seen :
    (exp : Time) (f : String) (b : Moment) (d : DedupStore)
    → b.first <ℤ exp
    → LastsTo exp f d
    → (is_duplicate b f d).0 ≡ true
unfolding is_duplicate
LastsTo-seen exp f b d lt (x, e, le) = ground arith

-- Once a fingerprint is accepted, every call with it within the TTL is a duplicate, whatever calls and
-- evictions come between them within the TTL.
pub repeat_is_duplicate :
    (a b : Moment) (f : String) (ops : List (Moment × Op)) (d : DedupStore)
    → (is_duplicate a f d).0 ≡ false
    → All (λ o. o.0.first <ℤ a.second +ℤ d.ttl) ops
    → b.first <ℤ a.second +ℤ d.ttl
    → (is_duplicate b f (run ops (is_duplicate a f d).1).1).0 ≡ true
repeat_is_duplicate a b f ops d accepted early lt = LastsTo-seen (a.second +ℤ d.ttl) f b _ lt (
    run-LastsTo (a.second +ℤ d.ttl) f ops _ early
      (a.second +ℤ d.ttl, accepted-LastsTo a f d accepted, omega arith))

-- From `exp` on no entry of `f` makes a duplicate.
abbrev FreeFrom : Time → String → DedupStore → Type 0
FreeFrom exp f d = (u : Time) → exp ≤ℤ u → seen u (d.entries f) ≡ false

check-FreeFrom :
    (exp : Time) (f g : String) (mo : Moment) (d : DedupStore)
    → g ≢ f
    → FreeFrom exp f d
    → FreeFrom exp f (is_duplicate mo g d).1
unfolding is_duplicate
check-FreeFrom exp f g mo d ne h u le = ground (arith, eq_iff g f, h u le)

evict-FreeFrom :
    (exp : Time) (f : String) (now : Time) (d : DedupStore)
    → FreeFrom exp f d
    → FreeFrom exp f (evict now d)
unfolding evict
evict-FreeFrom exp f now d h u le = ground (arith, h u le)

run-FreeFrom :
    (exp : Time) (f : String) (ops : List (Moment × Op)) (d : DedupStore)
    → All (λ o. o.1 ≢ checks f) ops
    → FreeFrom exp f d
    → FreeFrom exp f (run ops d).1
unfolding run step
run-FreeFrom exp f [] d others h = h
run-FreeFrom exp f ((mo, checks g) ∷ ops) d others h =
    run-FreeFrom exp f ops _ others.1 (check-FreeFrom exp f g mo d (λ e. others.0 (ap checks e)) h)
run-FreeFrom exp f ((mo, evicts) ∷ ops) d others h =
    run-FreeFrom exp f ops _ others.1 (evict-FreeFrom exp f mo.first d h)

accepted-FreeFrom :
    (a : Moment) (f : String) (d : DedupStore)
    → (is_duplicate a f d).0 ≡ false
    → FreeFrom (a.second +ℤ d.ttl) f (is_duplicate a f d).1
accepted-FreeFrom a f d h u le = rw (accepted-LastsTo a f d h) (ground arith)

FreeFrom-accepted :
    (exp : Time) (f : String) (b : Moment) (d : DedupStore)
    → exp ≤ℤ b.first
    → FreeFrom exp f d
    → (is_duplicate b f d).0 ≡ false
unfolding is_duplicate
FreeFrom-accepted exp f b d le h = ground (arith, h b.first le)

-- Once a fingerprint is accepted, and with no call for it in between, a call with it after the TTL or
-- later is accepted again.
pub accepted_after_ttl :
    (a b : Moment) (f : String) (ops : List (Moment × Op)) (d : DedupStore)
    → (is_duplicate a f d).0 ≡ false
    → All (λ o. o.1 ≢ checks f) ops
    → a.second +ℤ d.ttl ≤ℤ b.first
    → (is_duplicate b f (run ops (is_duplicate a f d).1).1).0 ≡ false
accepted_after_ttl a b f ops d accepted others le =
    FreeFrom-accepted (a.second +ℤ d.ttl) f b _ le
      (run-FreeFrom (a.second +ℤ d.ttl) f ops _ others (accepted-FreeFrom a f d accepted))
