-- ===== src/Burst/Admission.antt =====
-- How many requests of a window a `BurstCounter` admits over a `MemoryStore`.
use Prim.Native.String.{String, ◌++◌}
use ratelimiter_redis.Base.{
  ap, ℕ, suc, ◌+◌, ◌-◌, ◌≤◌, ◌<◌, ◌≡◌, refl, none, some, Result, ok, List, [], ◌∷◌, arith, length,
  ltb, All,
}
use ratelimiter_redis.Base.Int.{pos, sub_ℕ, ◌+ℤ◌, ◌≤ℤ◌, ◌<ℤ◌, add64, sub64, max_int64, int_laws}
use ratelimiter_redis.Base.Clock.{unix, Time, Moment, truncate}
use ratelimiter_redis.Memory.{MemoryStore, memory_store, increment}
use ratelimiter_redis.Memory.Replay.{live}
use ratelimiter_redis.Memory.Counting.{increment_counts, increment_opens}
use ratelimiter_redis.Burst.{itoa, BurstCounter, BurstDecision, window_key, decide, allow}

-- A call of `Allow`: its own reading of the clock, and those of the store.
pub record Visit : Type 0 where
  pub now : Time
  pub store_reads : Moment

-- The decisions on successive calls for one key.
pub decisions : BurstCounter → String → List Visit → MemoryStore → List (Result BurstDecision)
decisions b key [] m = []
decisions b key (v ∷ vs) m =
    let (d, m') = allow memory_store b v.now v.store_reads key m in d ∷ decisions b key vs m'

-- Admit while fewer than `total` have come, and count down what is left.
abbrev pub count_down : ℕ → ℕ → List Visit → List (Result BurstDecision)
count_down total n [] = []
count_down total n (v ∷ vs) =
    ok (record { allowed = ltb n total; remaining = pos (total - suc n) })
    ∷ count_down total (suc n) vs

sub64_small : (e k : ℕ) → e ≤ max_int64 → k ≤ max_int64 → sub64 (pos e) (pos k) ≡ sub_ℕ e k
unfolding sub64
sub64_small e k h h' = ground arith

module _ (l b : ℕ) (d : ℕ) (key : String) (room : l + b ≤ max_int64) where
  abbrev pub counter : BurstCounter
  counter = record { limit = pos l; burst = pos b; window = pos (suc d) }

  effective : add64 (pos l) (pos b) ≡ pos (l + b)
  unfolding add64
  effective = ground arith

  decide_count :
      (n : ℕ)
      → n < max_int64
      → decide counter (ok (pos (suc n)))
        ≡ ok (record { allowed = ltb n (l + b); remaining = pos (l + b - suc n) })
  unfolding decide
  decide_count n h = rw (effective, sub64_small (l + b) (suc n) room h) (ground arith)

  -- The counter's entry holds `n`, and lasts beyond the window that begins at `w`.
  abbrev Counted : ℕ → String → Time → MemoryStore → Type 0
  Counted n k w m =
      (end : Time) × (m.entries k ≡ some (record { value = pos n; expiry = end }))
      × (w +ℤ pos (suc d) ≤ℤ end)

  -- A call in the window that begins at `w`.
  abbrev pub InWindow : Time → Visit → Type 0
  InWindow w v = (truncate v.now (pos (suc d)) ≡ w) × (v.store_reads.first <ℤ w +ℤ pos (suc d))

  abbrev pub key_of : Time → String
  key_of w = key ++ ":" ++ itoa (unix w)

  window_key_lem : (w : Time) (v : Visit) → InWindow w v → window_key counter v.now key ≡ key_of w
  unfolding window_key
  window_key_lem w v within = rw within.0

  still_live :
      (n : ℕ) (w end : Time) (v : Visit) (m : MemoryStore)
      → InWindow w v
      → m.entries (key_of w) ≡ some (record { value = pos n; expiry = end })
      → w +ℤ pos (suc d) ≤ℤ end
      → live v.store_reads.first m.entries (key_of w)
        ≡ some (record { value = pos n; expiry = end })
  still_live n w end v m within e late = rw e (ground (arith, within.1))

  abbrev after : Visit → MemoryStore → Result BurstDecision × MemoryStore
  after v m = allow memory_store counter v.now v.store_reads key m

  -- What a store's count `n` makes of a call of `Allow`.
  after_count :
      (n : ℕ) (w : Time) (v : Visit) (m : MemoryStore)
      → n < max_int64
      → InWindow w v
      → (increment v.store_reads (key_of w) (pos (suc d)) m).0 ≡ ok (pos (suc n))
      → ((after v m).0 ≡ ok (record { allowed = ltb n (l + b); remaining = pos (l + b - suc n) }))
        × ((after v m).1 ≡ (increment v.store_reads (key_of w) (pos (suc d)) m).1)
  unfolding allow
  after_count n w v m lt within e = rw (window_key_lem w v within) (rw e (decide_count n lt), refl)

  decisions_count :
      (vs : List Visit) (n : ℕ) (w : Time) (m : MemoryStore)
      → n + length vs ≤ max_int64
      → All (InWindow w) vs
      → Counted n (key_of w) w m
      → decisions counter key vs m ≡ count_down (l + b) n vs
  unfolding decisions
  decisions_count [] n w m fits within h = refl
  decisions_count (v ∷ vs) n w m fits within (end, e, late) =
      let one =
        increment_counts v.store_reads (key_of w) (pos (suc d)) m n end (omega arith)
          (still_live n w end v m within.0 e late) in
      let out = after_count n w v m (omega arith) within.0 one.0 in
      rw (out.0, out.1)
        (ap (◌∷◌ (ok (record { allowed = ltb n (l + b); remaining = pos (l + b - suc n) })))
          (decisions_count vs (suc n) w _ (omega arith) within.1 (end, one.1, late)))

  -- In a window for which the store has no live entry, of the successive calls for one key the first
  -- limit + burst are allowed and every later one is not, and each returns what is left of
  -- limit + burst: all readings of the clock lie in the window, and those of the first call in order.
  pub burst_admits :
      (w : Time) (v : Visit) (vs : List Visit) (m : MemoryStore)
      → length (v ∷ vs) ≤ max_int64
      → All (InWindow w) (v ∷ vs)
      → w ≤ℤ v.store_reads.second
      → live v.store_reads.first m.entries (key_of w) ≡ none
      → decisions counter key (v ∷ vs) m ≡ count_down (l + b) 0 (v ∷ vs)
  unfolding decisions
  burst_admits w v vs m fits within begun fresh =
      let one = increment_opens v.store_reads (key_of w) (pos (suc d)) m fresh in
      let out = after_count 0 w v m (omega arith) within.0 one.0 in
      rw (out.0, out.1)
        (ap (◌∷◌ (ok (record { allowed = ltb 0 (l + b); remaining = pos (l + b - 1) }))) (
          decisions_count vs 1 w _ (omega arith) within.1
            (v.store_reads.second +ℤ pos (suc d), one.1, omega int_laws)))
