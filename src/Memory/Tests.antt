-- ===== src/Memory/Tests.antt =====
-- The store's theorems at concrete calls.
use ratelimiter_redis.Base.{false, ℕ, ◌≡◌, refl, List, [], ◌∷◌, arith}
use ratelimiter_redis.Base.Int.{pos, ◌+ℤ◌, add64}
use ratelimiter_redis.Base.Clock.{Moment, seconds}
use ratelimiter_redis.Memory.{new_memory_store}
use ratelimiter_redis.Memory.Replay.{
  eager_call, Op, increments, gets, sets, sets_nx, replies, eager_replies, number, flag, done,
}
use ratelimiter_redis.Memory.Refinement.{replies-eager}
use ratelimiter_redis.Memory.Counting.{increments_at, increments_count}

abbrev at : ℕ → Moment
at n = record { first = seconds n; second = seconds n }

-- The entry of "a" expires at 12 s; its last increment starts a new window.
abbrev schedule : List (Moment × Op)
schedule =
    (at 1, sets "a" (pos 7) (seconds 11))
    ∷ (at 3, increments "a" (seconds 5))
    ∷ (at 12, sets_nx "a" (pos 1) (seconds 1))
    ∷ (at 13, gets "a")
    ∷ (at 14, increments "a" (seconds 5))
    ∷ []

replies-eager_example :
    replies schedule new_memory_store ≡ eager_replies schedule new_memory_store.entries
replies-eager_example = replies-eager (seconds 0) schedule new_memory_store (omega arith)

schedule_replies :
    eager_replies schedule new_memory_store.entries
    ≡ done ∷ number (pos 8) ∷ flag false ∷ number (pos 0) ∷ number (pos 1) ∷ []
unfolding eager_replies eager_call add64
schedule_replies = refl

increments_count_test :
    replies (increments_at "k" (seconds 60) (at 1 ∷ at 2 ∷ at 61 ∷ [])) new_memory_store
    ≡ number (pos 1) ∷ number (pos 2) ∷ number (pos 3) ∷ []
unfolding ◌+ℤ◌
increments_count_test =
    increments_count (at 1) (at 2 ∷ at 61 ∷ []) "k" (seconds 60) new_memory_store refl (omega arith)
      (omega arith)
