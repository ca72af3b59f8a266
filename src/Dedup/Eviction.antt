-- ===== src/Dedup/Eviction.antt =====
-- That `evict` deletes entries makes no difference to any answer.
use ratelimiter_redis.Base.{String, ◌≡◌, refl, List, [], ◌∷◌, arith, eq_iff}
use ratelimiter_redis.Base.Int.{◌≤ℤ◌}
use ratelimiter_redis.Base.Clock.{Time, Moment}
use ratelimiter_redis.Dedup.{
  DedupStore, seen, is_duplicate, evict, Op, checks, evicts, step, run, IsOrdered,
}

abbrev pub without_evictions : List (Moment × Op) → List (Moment × Op)
without_evictions [] = []
without_evictions ((mo, checks f) ∷ ops) = (mo, checks f) ∷ without_evictions ops
without_evictions ((mo, evicts) ∷ ops) = without_evictions ops

-- From time `t` on, both stores answer alike.
pub record Agree (t : Time) (d e : DedupStore) : Type 0 where
  pub ttls : d.ttl ≡ e.ttl
  pub answers : (f : String) (u : Time) → t ≤ℤ u → seen u (d.entries f) ≡ seen u (e.entries f)

is_duplicate-Agree :
    (t : Time) (mo : Moment) (f : String) (d e : DedupStore)
    → t ≤ℤ mo.first
    → mo.first ≤ℤ mo.second
    → Agree t d e
    → ((is_duplicate mo f d).0 ≡ (is_duplicate mo f e).0)
      × Agree mo.second (is_duplicate mo f d).1 (is_duplicate mo f e).1
unfolding is_duplicate
is_duplicate-Agree t mo f d e le le' h = (
  ground (arith, h.answers f mo.first),
  record {
    ttls = ground (arith, h.ttls);
    answers = λ g u later. ground (arith, h.ttls, h.answers f mo.first, h.answers g u, eq_iff f g);
  },
)

evict-Agree :
    (t : Time) (mo : Moment) (d e : DedupStore)
    → t ≤ℤ mo.first
    → mo.first ≤ℤ mo.second
    → Agree t d e
    → Agree mo.second (evict mo.first d) e
unfolding evict
evict-Agree t mo d e le le' h = record {
  ttls = h.ttls;
  answers = λ g u later. ground (arith, h.answers g u);
}

run-Agree :
    (t : Time) (ops : List (Moment × Op)) (d e : DedupStore)
    → IsOrdered t ops
    → Agree t d e
    → (run ops d).0 ≡ (run (without_evictions ops) e).0
unfolding run step
run-Agree t [] d e ordered h = refl
run-Agree t ((mo, checks f) ∷ ops) d e ordered h =
    let one = is_duplicate-Agree t mo f d e ordered.0 ordered.1 h in
    ground (
      arith,
      one.0,
      run-Agree mo.second ops (is_duplicate mo f d).1 (is_duplicate mo f e).1 ordered.2 one.1,
    )
run-Agree t ((mo, evicts) ∷ ops) d e ordered h =
    run-Agree mo.second ops (evict mo.first d) e ordered.2
      (evict-Agree t mo d e ordered.0 ordered.1 h)

-- Over any calls in order of time, the answers of `IsDuplicate` are those of a store on which `evict`
-- never runs.
pub evictions_invisible :
    (t : Time) (ops : List (Moment × Op)) (d : DedupStore)
    → IsOrdered t ops
    → (run ops d).0 ≡ (run (without_evictions ops) d).0
evictions_invisible t ops d ordered =
    run-Agree t ops d d ordered (record { ttls = refl; answers = λ f u le. refl })
