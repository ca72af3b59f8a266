-- ===== src/Throttle/Capacity.antt =====
-- The two counters and their bounds.
use ratelimiter_redis.Base.{
  ℕ, zero, suc, ◌+◌, ◌≤◌, ◌<◌, ◌≡◌, refl, Option, none, some, List, [], ◌∷◌, arith,
}
use ratelimiter_redis.Base.Int.{pos, pos_part, add64, sub64, max_int64}
use ratelimiter_redis.Throttle.{
  ThrottleConfig, Shared, new_shared, Phase, arriving, serving, no_slot, queued, Event, runs,
  timer_fires, context_done, act, moved, advance, run,
}

abbrev pub is_serving : Phase → ℕ
is_serving serving = 1
is_serving _ = 0

abbrev pub is_queued : Phase → ℕ
is_queued queued = 1
is_queued _ = 0

abbrev pub count_serving : List Phase → ℕ
count_serving [] = 0
count_serving (p ∷ ps) = is_serving p + count_serving ps

abbrev pub count_queued : List Phase → ℕ
count_queued [] = 0
count_queued (p ∷ ps) = is_queued p + count_queued ps

-- `n` requests are in the handler, and `m` in the queue.
pub record Holds (c : ThrottleConfig) (n m : ℕ) (s : Shared) : Type 0 where
  pub active : s.active ≡ pos n
  pub queue : s.queue ≡ m
  pub fits : n ≤ pos_part c.max_concurrent
  pub queue_fits : m ≤ c.queue_size

one_more : (n : ℕ) → n < max_int64 → add64 (pos n) (pos 1) ≡ pos (suc n)
unfolding add64
one_more n h = ground arith

one_less : (n : ℕ) → n < max_int64 → sub64 (pos (suc n)) (pos 1) ≡ pos n
unfolding sub64
one_less n h = ground arith

module _ (c : ThrottleConfig) (bounded : pos_part c.max_concurrent ≤ max_int64) where
  -- A step keeps the counters exact, beside `n` and `m` other requests.
  abbrev Keeps : ℕ → ℕ → Phase → Shared → Option (Phase × Shared) → Type 0
  Keeps n m p s none = Holds c (is_serving p + n) (is_queued p + m) s
  Keeps n m p s (some (q, s')) = Holds c (is_serving q + n) (is_queued q + m) s'

  act-Keeps :
      (e : Event) (p : Phase) (n m : ℕ) (s : Shared)
      → Holds c (is_serving p + n) (is_queued p + m) s
      → Keeps n m p s (act c e p s)
  unfolding act
  act-Keeps runs arriving n m s h = ground (arith, one_more n)
  act-Keeps runs serving n m s h = ground (arith, one_less n)
  act-Keeps runs no_slot n m s h = ground arith
  act-Keeps timer_fires queued n m s h = ground arith
  act-Keeps context_done queued n m s h = ground arith
  act-Keeps _ _ n m s h = h

  abbrev pub Exact : ℕ → ℕ → List Phase → Shared → Type 0
  Exact n m ps s = Holds c (count_serving ps + n) (count_queued ps + m) s

  moved-Exact :
      (n m : ℕ) (p : Phase) (ps : List Phase) (s : Shared) (o : Option (Phase × Shared))
      → Keeps (count_serving ps + n) (count_queued ps + m) p s o
      → Exact n m (moved p ps s o).1 (moved p ps s o).0
  moved-Exact n m p ps s none h = ground arith
  moved-Exact n m p ps s (some (q, s')) h = ground arith

  advance-Exact :
      (e : Event) (i n m : ℕ) (s : Shared) (ps : List Phase)
      → Exact n m ps s
      → Exact n m (advance c e i s ps).1 (advance c e i s ps).0
  unfolding advance
  advance-Exact e i n m s [] h = h
  advance-Exact e zero n m s (p ∷ ps) h =
      moved-Exact n m p ps s (act c e p s)
        (act-Keeps e p (count_serving ps + n) (count_queued ps + m) s (ground arith))
  advance-Exact e (suc i) n m s (p ∷ ps) h =
      let rest = advance-Exact e i (is_serving p + n) (is_queued p + m) s ps (ground arith) in
      ground (arith, rest)

  run-Exact :
      (sched : List (ℕ × Event)) (s : Shared) (ps : List Phase)
      → Exact 0 0 ps s
      → Exact 0 0 (run c sched s ps).1 (run c sched s ps).0
  unfolding run
  run-Exact [] s ps h = h
  run-Exact ((i, e) ∷ sched) s ps h = run-Exact sched _ _ (advance-Exact e i 0 0 s ps h)

-- Requests that have just come.
abbrev pub all_arriving : ℕ → List Phase
all_arriving zero = []
all_arriving (suc n) = arriving ∷ all_arriving n

none_yet : (n : ℕ) → (count_serving (all_arriving n) ≡ 0) × (count_queued (all_arriving n) ≡ 0)
none_yet zero = (refl, refl)
none_yet (suc n) = ground (arith, none_yet n)

-- In every interleaving of the goroutines that serve `n` requests, `active` is the number of requests
-- in the handler, and the queue holds the queued ones; the first is never above `maxConcurrent`, nor
-- the second above the queue's capacity.
pub throttle_capacity :
    (c : ThrottleConfig) (sched : List (ℕ × Event)) (n : ℕ)
    → pos_part c.max_concurrent ≤ max_int64
    → let (s, ps) = run c sched new_shared (all_arriving n) in
      (s.active ≡ pos (count_serving ps))
      × (s.queue ≡ count_queued ps)
      × (count_serving ps ≤ pos_part c.max_concurrent)
      × (count_queued ps ≤ c.queue_size)
throttle_capacity c sched n bounded =
    let start : Exact c bounded 0 0 (all_arriving n) new_shared = ground (arith, none_yet n) in
    let last = run-Exact c bounded sched new_shared (all_arriving n) start in ground (arith, last)
