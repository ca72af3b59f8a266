-- ===== src/Memory/Refinement.antt =====
-- That expired entries stay in the map until somebody asks for them makes no difference.
use ratelimiter_redis.Base.{
  String, List, [], ◌∷◌, ◌≡◌, refl, true, Option, none, some, arith, eq_iff,
}
use ratelimiter_redis.Base.Int.{◌≤ℤ◌}
use ratelimiter_redis.Base.Clock.{Time, Moment}
use ratelimiter_redis.Base.GoMap.{GoMap, drop_if}
use ratelimiter_redis.Memory.{
  MemEntry, MemoryStore, lookup, increment, get, set, set_nx, ttl, delete,
}
use ratelimiter_redis.Memory.Replay.{
  outlived, eager_replies, IsOrdered, replies, Op, increments, gets, asks_ttl, deletes, sets,
  sets_nx, call, live, eager_call,
}

outlived_later : (t u : Time) (e : MemEntry) → t ≤ℤ u → outlived t e ≡ true → outlived u e ≡ true
outlived_later t u e le h = ground arith

live_later :
    (t u : Time) (o : Option MemEntry)
    → t ≤ℤ u
    → drop_if (outlived u) (drop_if (outlived t) o) ≡ drop_if (outlived u) o
live_later t u none le = refl
live_later t u (some e) le = ground (arith, outlived_later t u e)

pub lookup-live :
    (now : Time) (k : String) (m : MemoryStore) → ((lookup now k m).0 ≡ live now m.entries k)
unfolding lookup
lookup-live now k m = ground arith

live-lookup :
    (now : Time) (k j : String) (m : MemoryStore)
    → live now (lookup now k m).1.entries j ≡ live now m.entries j
unfolding lookup
live-lookup now k j m = ground (arith, eq_iff k j)

abbrev Agree : Time → MemoryStore → GoMap MemEntry → Type 0
Agree t m v = (j : String) → live t m.entries j ≡ live t v j

Agree-later :
    (t u : Time) (m : MemoryStore) (v : GoMap MemEntry) → t ≤ℤ u → Agree t m v → Agree u m v
Agree-later t u m v le h j =
    ground (arith, live_later t u (m.entries j) le, live_later t u (v j) le, h j)

call-Agree :
    (mo : Moment) (o : Op) (m : MemoryStore) (v : GoMap MemEntry)
    → Agree mo.first m v
    → ((call mo o m).0 ≡ (eager_call mo o (live mo.first v)).0)
      × Agree mo.first (call mo o m).1 (eager_call mo o (live mo.first v)).1
unfolding call eager_call increment get set set_nx ttl delete
call-Agree mo (increments k w) m v h = (
  ground (arith, lookup-live mo.first k m, h k),
  λ j. ground (
    arith,
    lookup-live mo.first k m,
    live-lookup mo.first k j m,
    h k,
    h j,
    eq_iff k j,
    live_later mo.first mo.first (v j),
  ),
)
call-Agree mo (gets k) m v h = (
  ground (arith, lookup-live mo.first k m, h k),
  λ j. ground (arith, live-lookup mo.first k j m, h j, live_later mo.first mo.first (v j)),
)
call-Agree mo (asks_ttl k) m v h = (
  ground (arith, lookup-live mo.first k m, h k),
  λ j. ground (arith, live-lookup mo.first k j m, h j, live_later mo.first mo.first (v j)),
)
call-Agree mo (deletes k) m v h =
    (refl, λ j. ground (arith, h j, eq_iff k j, live_later mo.first mo.first (v j)))
call-Agree mo (sets k x d) m v h =
    (refl, λ j. ground (arith, h j, eq_iff k j, live_later mo.first mo.first (v j)))
call-Agree mo (sets_nx k x d) m v h = (
  ground (arith, lookup-live mo.first k m, h k),
  λ j. ground (
    arith,
    lookup-live mo.first k m,
    live-lookup mo.first k j m,
    h k,
    h j,
    eq_iff k j,
    live_later mo.first mo.first (v j),
  ),
)

replies-Agree :
    (t : Time) (sched : List (Moment × Op)) (m : MemoryStore) (v : GoMap MemEntry)
    → IsOrdered t sched
    → Agree t m v
    → replies sched m ≡ eager_replies sched v
unfolding replies eager_replies
replies-Agree t [] m v ordered h = refl
replies-Agree t ((mo, o) ∷ rest) m v ordered h =
    let step = call-Agree mo o m v (Agree-later t mo.first m v ordered.0 h) in
    ground (
      arith,
      step.0,
      replies-Agree mo.first rest (call mo o m).1 (eager_call mo o (live mo.first v)).1 ordered.1
          step.1,
    )

-- Over any calls in order of time, a `MemoryStore` replies as a map does from which each entry that has an
-- expiry vanishes as soon as its expiry is past, before the next call looks at it: at the instant of the
-- expiry itself the entry is still there.
pub replies-eager :
    (t : Time) (sched : List (Moment × Op)) (m : MemoryStore)
    → IsOrdered t sched
    → replies sched m ≡ eager_replies sched m.entries
replies-eager t sched m ordered = replies-Agree t sched m m.entries ordered (λ j. refl)
