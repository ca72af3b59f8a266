-- ===== src/Dedup/Tests.antt =====
-- The dedup store's theorems at concrete calls.
use ratelimiter_redis.Base.{eq_iff, ◌≢◌, ℕ, ◌≡◌, refl, true, false, List, [], ◌∷◌, arith}
use ratelimiter_redis.Base.Clock.{Moment, seconds}
use ratelimiter_redis.Dedup.{DedupStore, new_dedup_store, is_duplicate, Op, checks, evicts, run}
use ratelimiter_redis.Dedup.Eviction.{without_evictions, evictions_invisible}
use ratelimiter_redis.Dedup.Window.{repeat_is_duplicate, accepted_after_ttl}

abbrev at : ℕ → Moment
at n = record { first = seconds n; second = seconds n }

abbrev store : DedupStore
store = new_dedup_store (seconds 5)

abbrev traffic : List (Moment × Op)
traffic =
    (at 1, checks "a")
    ∷ (at 2, checks "b")
    ∷ (at 6, evicts)
    ∷ (at 6, checks "a")
    ∷ (at 12, evicts)
    ∷ []

evictions_invisible_example : (run traffic store).0 ≡ (run (without_evictions traffic) store).0
evictions_invisible_example = evictions_invisible (seconds 0) traffic store (omega arith)

repeat_is_duplicate_example :
    (is_duplicate
      (at 5)
      "a"
      (run ((at 3, checks "b") ∷ (at 4, evicts) ∷ []) (is_duplicate (at 1) "a" store).1).1).0
    ≡ true
unfolding is_duplicate
repeat_is_duplicate_example =
    repeat_is_duplicate (at 1) (at 5) "a" ((at 3, checks "b") ∷ (at 4, evicts) ∷ []) store refl
      (omega arith) (omega arith)

b_ne_a : checks "b" ≢ checks "a"
b_ne_a e = ground (arith, eq_iff "b" "a")

accepted_after_ttl_test :
    (is_duplicate
      (at 6)
      "a"
      (run ((at 3, checks "b") ∷ (at 4, evicts) ∷ []) (is_duplicate (at 1) "a" store).1).1).0
    ≡ false
unfolding is_duplicate
accepted_after_ttl_test =
    accepted_after_ttl (at 1) (at 6) "a" ((at 3, checks "b") ∷ (at 4, evicts) ∷ []) store refl
      (b_ne_a, (λ e. cc, tt)) (omega arith)
