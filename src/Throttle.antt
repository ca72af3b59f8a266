-- ===== src/Throttle.antt =====
-- request_throttle.go and request_throttle_option.go: the gate that `WithRequestThrottle` puts before a
-- handler, as the steps of the goroutines that serve the requests. A step is what happens between two
-- points where another goroutine may run: the critical sections, and the two `select`s.
pub mod Capacity
pub mod Queue
mod Tests
use ratelimiter_redis.Http.{http_error, Handler}
use ratelimiter_redis.Base.{
  ℕ, zero, suc, ◌+◌, ◌-◌, ◌≡◌, Bool, true, false, Option, none, some, List, [], ◌∷◌, ltb,
  if◌then◌else◌,
}
use ratelimiter_redis.Base.Int.{ℤ, pos, add64, sub64, ltb_ℤ}

-- What the configuration fixes: `maxConcurrent` and the capacity of `queue`.
pub record ThrottleConfig : Type 0 where
  pub max_concurrent : ℤ
  pub queue_size : ℕ

-- What the goroutines share: `active` and the number of elements in `queue`.
pub record Shared : Type 0 where
  pub active : ℤ
  pub queue : ℕ

abbrev pub new_shared : Shared
new_shared = record { active = pos 0; queue = 0 }

-- Where a request stands: before the test of `active`; in `next.ServeHTTP`; past it; refused a slot and
-- before the outer `select`; in the inner `select`; answered by `exceededHandler`; given up by its client.
pub data Phase : Type 0 where
  arriving serving served no_slot queued exceeded abandoned : Phase

-- What lets a request go on: its own goroutine runs, its timer fires, or its context is done.
pub data Event : Type 0 where
  runs timer_fires context_done : Event

-- The step of a request in its phase; `none` where it has none, or would block.
pub act : ThrottleConfig → Event → Phase → Shared → Option (Phase × Shared)
act c runs arriving s =
    if ltb_ℤ s.active c.max_concurrent
    then some (serving, record s { active = add64 s.active (pos 1) })
    else some (no_slot, s)
act c runs serving s = some (served, record s { active = sub64 s.active (pos 1) })
act c runs no_slot s =
    if ltb s.queue c.queue_size
    then some (queued, record s { queue = s.queue + 1 })
    else some (exceeded, s)
act c timer_fires queued s =
    if ltb 0 s.queue then some (exceeded, record s { queue = s.queue - 1 }) else none
act c context_done queued s =
    if ltb 0 s.queue then some (abandoned, record s { queue = s.queue - 1 }) else none
act c _ _ s = none

abbrev pub default_throttle_exceeded_handler : {S : Type 0} → Handler S
default_throttle_exceeded_handler r s = (http_error "Service Unavailable" 503, s)

-- WithThrottleExceededHandler; `none` stands for nil, and the second argument is the handler so far.
abbrev pub with_throttle_exceeded_handler :
    {S : Type 0} → Option (Handler S) → Handler S → Handler S
with_throttle_exceeded_handler none so_far = so_far
with_throttle_exceeded_handler (some h) so_far = h

-- What a request gets whose goroutine has come to an end in the phase.
abbrev pub answer : {S : Type 0} → Handler S → Handler S → Phase → Handler S
answer exceeded_handler next served r s = next r s
answer exceeded_handler next exceeded r s = exceeded_handler r s
answer exceeded_handler next _ r s = ([], s)

abbrev pub moved : Phase → List Phase → Shared → Option (Phase × Shared) → Shared × List Phase
moved p ps s none = (s, p ∷ ps)
moved p ps s (some (q, s')) = (s', q ∷ ps)

-- The step of the request at an index.
pub advance : ThrottleConfig → Event → ℕ → Shared → List Phase → Shared × List Phase
advance c e i s [] = (s, [])
advance c e zero s (p ∷ ps) = moved p ps s (act c e p s)
advance c e (suc i) s (p ∷ ps) = let (s', ps') = advance c e i s ps in (s', p ∷ ps')

-- A schedule says whose step is next.
pub run : ThrottleConfig → List (ℕ × Event) → Shared → List Phase → Shared × List Phase
run c [] s ps = (s, ps)
run c ((i, e) ∷ sched) s ps = let (s', ps') = advance c e i s ps in run c sched s' ps'
