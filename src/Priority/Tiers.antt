-- ===== src/Priority/Tiers.antt =====
-- Which requests of an address are within the limit of their tier, over a `MemoryStore`.
use Prim.Native.String.{◌++◌}
use ratelimiter_redis.Base.{
  All, not, Bool-cases, inl, inr, if◌then◌else◌, ℕ, suc, ◌+◌, ◌≤◌, ◌<◌, ◌≡◌, refl, ap, String, none,
  some, ok, List, [], ◌∷◌, length, arith,
}
use ratelimiter_redis.Base.Int.{sub64, ℤ, pos, leb_ℤ, ltb_ℤ, ◌+ℤ◌, ◌≤ℤ◌, max_int64}
use ratelimiter_redis.Base.Text.{itoa}
use ratelimiter_redis.Base.Clock.{Time, Moment}
use ratelimiter_redis.Http.{Call, Request, Handler, set_header, write_header}
use ratelimiter_redis.Memory.{MemoryStore, memory_store, increment}
use ratelimiter_redis.Memory.Replay.{live}
use ratelimiter_redis.Memory.Counting.{increment_counts, increment_opens}
use ratelimiter_redis.Priority.{
  PriorityLevel, Multiplier, PriorityOption, priority_config, effective_limit, window_ttl,
  with_request_priority, answer,
}

-- A request at its moment.
abbrev pub Visit : Type 0
Visit = Moment × Request

module _ {F S : Type 0} (float : Multiplier F) (limit : ℤ) (opts : List (PriorityOption F S))
    (addr : String) where
  abbrev pub key_of : String
  key_of = "priority:" ++ addr

  -- The limit of a request's own tier: of high priority from 10 on, of low priority up to 1, and of
  -- normal priority between; at least 1.
  abbrev pub tier : PriorityLevel → ℤ
  tier p =
      let cfg = priority_config float opts in
      if ltb_ℤ p (pos 10)
      then if ltb_ℤ (pos 1) p then limit else float.scale limit cfg.low_limit_mult
      else float.scale limit cfg.high_limit_mult

  abbrev pub limit_of : Request → ℤ
  limit_of r =
      let n = tier ((priority_config float opts).key_func r) in if leb_ℤ (pos 1) n then n else pos 1

  limit_lem :
      (r : Request)
      → let cfg = priority_config float opts in
        effective_limit float cfg limit (cfg.key_func r) ≡ limit_of r
  unfolding effective_limit
  limit_lem r = ground arith

  -- What successive requests are answered.
  pub responses : List Visit → MemoryStore × S → List (List Call)
  responses [] state = []
  responses ((mo, r) ∷ vs) state =
      let (calls, state') = with_request_priority float limit memory_store opts mo r state in
      calls ∷ responses vs state'

  -- The response to the request number `count`, and the state after it: 200 up to the limit, and beyond it
  -- what the handler for exceeded limits answers; behind the limit and what is left of it.
  abbrev pub judge : ℤ → Handler S
  judge count r s =
      let limit = limit_of r in
      let (calls, s') =
        (if leb_ℤ count limit
          then (write_header 200 ∷ [], s)
          else (priority_config float opts).exceeded_handler r s) in
      (
        set_header "X-RateLimit-Limit" (itoa limit)
            ∷ set_header "X-RateLimit-Remaining"
                (itoa (if ltb_ℤ (sub64 limit count) (pos 0) then pos 0 else sub64 limit count))
            ∷ calls,
        s',
      )

  -- Each request counts for all tiers, and is held against the limit of its own.
  abbrev pub judged : ℕ → List Visit → S → List (List Call)
  judged n [] s = []
  judged n ((mo, r) ∷ vs) s =
      let (calls, s') = judge (pos (suc n)) r s in calls ∷ judged (suc n) vs s'

  -- From the address, at a moment up to `end`.
  abbrev pub Within : Time → Visit → Type 0
  Within end (mo, r) = (r.remote_addr ≡ addr) × (mo.first ≤ℤ end)

  over_lem : (a b : ℤ) → ltb_ℤ a b ≡ not (leb_ℤ b a)
  over_lem a b = ground arith

  answer_lem :
      (count n : ℤ) (r : Request) (s : S)
      → answer (priority_config float opts).exceeded_handler (ltb_ℤ n count) r s ≡ (
          if leb_ℤ count n
          then (write_header 200 ∷ [], s)
          else (priority_config float opts).exceeded_handler r s)
  answer_lem count n r s = elim (Bool-cases (leb_ℤ count n)) [
    | inl e ↦ rw (over_lem n count, e) refl
    | inr e ↦ rw (over_lem n count, e) refl
  ]

  served :
      (n : ℕ) (mo : Moment) (r : Request) (m : MemoryStore) (s : S)
      → r.remote_addr ≡ addr
      → (increment mo key_of window_ttl m).0 ≡ ok (pos (suc n))
      → with_request_priority float limit memory_store opts mo r (m, s) ≡ (
        (judge (pos (suc n)) r s).0,
        ((increment mo key_of window_ttl m).1, (judge (pos (suc n)) r s).1),
      )
  unfolding with_request_priority
  served n mo r m s at e =
      let same : ("priority:" ++ r.remote_addr) ≡ key_of = ap (λ a. "priority:" ++ a) at in
      rw same (rw (e, limit_lem r, answer_lem (pos (suc n)) (limit_of r) r s) refl)

  responses_count :
      (vs : List Visit) (n : ℕ) (end : Time) (m : MemoryStore) (s : S)
      → n + length vs ≤ max_int64
      → All (Within end) vs
      → m.entries key_of ≡ some (record { value = pos n; expiry = end })
      → responses vs (m, s) ≡ judged n vs s
  unfolding responses
  responses_count [] n end m s fits within e = refl
  responses_count ((mo, r) ∷ vs) n end m s fits ((at, early), within) e =
      let one = increment_counts mo key_of window_ttl m n end (omega arith) (rw e (ground arith)) in
      rw (served n mo r m s at one.0) (
        ap (◌∷◌ (judge (pos (suc n)) r s).0)
          (responses_count vs (suc n) end _ _ (omega arith) within one.1))

  -- From the first request of an address for which the store has no live entry, to the end of the window
  -- of 60 nanoseconds that it opens, each request of the address is counted, of whatever priority, and is
  -- answered 200 exactly if its number is at most the limit of its own priority, which is `limit` scaled by
  -- the high multiplier from 10 on and by the low one up to 1, and at least 1; any other is answered by the
  -- handler for exceeded limits.
  pub priority_judges :
      (mo : Moment) (r : Request) (vs : List Visit) (m : MemoryStore) (s : S)
      → length vs < max_int64
      → r.remote_addr ≡ addr
      → live mo.first m.entries key_of ≡ none
      → All (Within (mo.second +ℤ window_ttl)) vs
      → responses ((mo, r) ∷ vs) (m, s) ≡ judged 0 ((mo, r) ∷ vs) s
  unfolding responses
  priority_judges mo r vs m s fits at fresh within =
      let one = increment_opens mo key_of window_ttl m fresh in
      rw (served 0 mo r m s at one.0) (
        ap (◌∷◌ (judge (pos 1) r s).0)
          (responses_count vs 1 (mo.second +ℤ window_ttl) _ _ (omega arith) within one.1))
