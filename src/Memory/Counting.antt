-- ===== src/Memory/Counting.antt =====
-- `Increment` counts the calls of a window.
use ratelimiter_redis.Base.{
  ℕ, suc, ◌+◌, ◌≤◌, ◌<◌, String, ◌≡◌, refl, none, some, List, [], ◌∷◌, ok, arith, length, eq_iff,
  All,
}
use ratelimiter_redis.Base.Int.{pos, ◌+ℤ◌, ◌≤ℤ◌, add64, max_int64}
use ratelimiter_redis.Base.Clock.{Time, Duration, Moment}
use ratelimiter_redis.Memory.{MemoryStore, increment}
use ratelimiter_redis.Memory.Replay.{Op, increments, Reply, number, call, replies, live}
use ratelimiter_redis.Memory.Refinement.{lookup-live}

-- Calls of `Increment` for one key, at the moments.
abbrev pub increments_at : String → Duration → List Moment → List (Moment × Op)
increments_at k w [] = []
increments_at k w (mo ∷ ms) = (mo, increments k w) ∷ increments_at k w ms

-- n + 1, n + 2, …
abbrev pub numbers_from : ℕ → List Moment → List Reply
numbers_from n [] = []
numbers_from n (mo ∷ ms) = number (pos (suc n)) ∷ numbers_from (suc n) ms

add64_one : (n : ℕ) → n < max_int64 → add64 (pos n) (pos 1) ≡ pos (suc n)
unfolding add64
add64_one n h = ground arith

pub increment_counts :
    (mo : Moment) (k : String) (w : Duration) (m : MemoryStore) (n : ℕ) (end : Time)
    → n < max_int64
    → live mo.first m.entries k ≡ some (record { value = pos n; expiry = end })
    → ((increment mo k w m).0 ≡ ok (pos (suc n)))
      × ((increment mo k w m).1.entries k ≡ some (record { value = pos (suc n); expiry = end }))
unfolding increment
increment_counts mo k w m n end room h =
    ground (arith, lookup-live mo.first k m, add64_one n room, eq_iff k k)

pub increment_opens :
    (mo : Moment) (k : String) (w : Duration) (m : MemoryStore)
    → live mo.first m.entries k ≡ none
    → ((increment mo k w m).0 ≡ ok (pos 1))
      × ((increment mo k w m).1.entries k
          ≡ some (record { value = pos 1; expiry = mo.second +ℤ w }))
unfolding increment
increment_opens mo k w m h = ground (arith, lookup-live mo.first k m, add64_one 0, eq_iff k k)

count_on :
    (ms : List Moment) (k : String) (w : Duration) (m : MemoryStore) (n : ℕ) (end : Time)
    → n + length ms ≤ max_int64
    → All (λ mo. mo.first ≤ℤ end) ms
    → m.entries k ≡ some (record { value = pos n; expiry = end })
    → replies (increments_at k w ms) m ≡ numbers_from n ms
unfolding replies call
count_on [] k w m n end room within h = refl
count_on (mo ∷ ms) k w m n end room within h =
    let one = increment_counts mo k w m n end (omega arith) (ground (arith, h)) in
    ground (
      arith,
      one.0,
      count_on ms k w (increment mo k w m).1 (suc n) end (omega arith) within.1 one.1,
    )

-- Where the key has no live entry at the first call, the calls of `Increment` up to the end of the
-- window that the first one opens return 1, 2, 3, …: the window is not extended.
pub increments_count :
    (mo : Moment) (ms : List Moment) (k : String) (w : Duration) (m : MemoryStore)
    → live mo.first m.entries k ≡ none
    → length ms < max_int64
    → All (λ later. later.first ≤ℤ mo.second +ℤ w) ms
    → replies (increments_at k w (mo ∷ ms)) m ≡ numbers_from 0 (mo ∷ ms)
unfolding replies call
increments_count mo ms k w m fresh room within =
    let one = increment_opens mo k w m fresh in
    ground (
      arith,
      one.0,
      count_on ms k w (increment mo k w m).1 1 (mo.second +ℤ w) (omega arith) within one.1,
    )
