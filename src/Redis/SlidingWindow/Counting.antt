-- ===== src/Redis/SlidingWindow/Counting.antt =====
-- What `Allow` counts, over a client whose server keeps a sorted set with an expiry under each key.
use ratelimiter_redis.Base.{
  sym, length-map, ◌∙◌, inr, ap, inl, Bool-cases, suc, ◌≤◌, ◌/◌, ◌*◌, ◌+◌, ◌<◌, ℕ, ◌≡◌, refl,
  String, Result, ok, List, [], ◌∷◌, arith, length, ltb, leb, All, map,
}
use ratelimiter_redis.Base.Int.{InInt64, add64_pos, ℤ, pos, ◌+ℤ◌, ◌≤ℤ◌, ◌<ℤ◌, max_int64}
use ratelimiter_redis.Base.Clock.{nanoseconds, from_sum, before_sum, Time, Duration}
use ratelimiter_redis.Base.Text.{itoa}
use ratelimiter_redis.Redis.SlidingWindow.Recent.{
  ms, recent, ZSet, above, IsNew, entry, recent-recent, recent-old, recent-All, older-All,
  entries-IsNew, lo, lo-InInt64, above-entries,
}
use ratelimiter_redis.Redis.SlidingWindow.{ZCommands, pipeline, SlidingDecision, allow, decide}

-- The calls of `Allow` for one key, at these times of the caller's and the server's clock.
pub decisions :
    {R : Type 0} → ZCommands R → String → ℤ → Duration → List ℕ → R → List (Result SlidingDecision)
decisions commands key max window [] r = []
decisions commands key max window (t ∷ ts) r =
    let (d, r') = allow commands (pos t) (pos t) key max window r in
    d ∷ decisions commands key max window ts r'

-- Every call counts the recent ones before it, the refused ones among them, and itself.
abbrev pub count_recent : ℕ → ℕ → List ℕ → List ℕ → List (Result SlidingDecision)
count_recent max w earlier [] = []
count_recent max w earlier (t ∷ ts) =
    let count = suc (length (recent w t earlier)) in
    ok (record { allowed = leb count max; count = pos count }) ∷ count_recent max w (t ∷ earlier) ts

abbrev pub Increasing : ℕ → List ℕ → Type 0
Increasing last [] = last ≤ max_int64
Increasing last (t ∷ ts) = (last < t) × Increasing t ts

Increasing-bound : (last : ℕ) (ts : List ℕ) → Increasing last ts → last ≤ max_int64
Increasing-bound last [] h = h
Increasing-bound last (t ∷ ts) (lt, h) = let le = Increasing-bound t ts h in omega arith

-- The whole seconds of a duration, in nanoseconds.
abbrev pub whole : ℕ → ℕ
whole d = d / nanoseconds * nanoseconds

whole_more : (w : ℕ) → w * 1000000 ≤ whole (w * 1000000 + 1000000000)
whole_more w = omega arith

-- Of the server, with `members t k r` the set of a key at `t`: ZREMRANGEBYSCORE leaves the scores above an
-- integer, ZADD adds a new member, ZCARD counts, and EXPIRE lets the set last for the whole seconds of a
-- duration of at least one, and no longer. None fails, and the transaction is run.
module _ {R : Type 0} (commands : ZCommands R) (members : Time → String → R → ZSet)
    (removes : (now : Time) (k : String) (to : ℤ) (r : R)
      → InInt64 to
      → let (reply, r') = commands.z_rem_range_by_score now k "0" (itoa to) r in
        (reply ≡ ok tt) × (members now k r' ≡ above to (members now k r)))
    (adds : (now : Time) (k : String) (score : ℤ) (m : String) (r : R)
      → IsNew m (members now k r)
      → let (reply, r') = commands.z_add now k score m r in
        (reply ≡ ok tt) × (members now k r' ≡ (m, score) ∷ members now k r))
    (cards : (now : Time) (k : String) (r : R)
      → commands.z_card now k r ≡ (ok (pos (length (members now k r))), r))
    (expire_ok : (now : Time) (k : String) (d : Duration) (r : R)
      → (commands.expire now k d r).0 ≡ ok tt)
    (lasts : (now t : Time) (k : String) (d : ℕ) (r : R)
      → nanoseconds ≤ d
      → now ≤ℤ t
      → t <ℤ now +ℤ pos (whole d)
      → members t k (commands.expire now k (pos d) r).1 ≡ members now k r)
    (expires : (now t : Time) (k : String) (d : ℕ) (r : R)
      → nanoseconds ≤ d
      → now +ℤ pos (whole d) ≤ℤ t
      → members t k (commands.expire now k (pos d) r).1 ≡ [])
    (runs : (f : R → Result ℤ × R) (r : R) → commands.exec f r ≡ f r) (max w : ℕ)
    (room : w * 1000000 + 1000000000 ≤ max_int64) (key : String) where
  -- The set before EXPIRE.
  abbrev filled : ℕ → R → R
  filled t r =
      (commands.z_add (pos t) key (pos (ms t)) (itoa (pos t))
        (commands.z_rem_range_by_score (pos t) key "0" (itoa (lo w t)) r).1).1

  -- The set holds, at every time after the last call, calls up to it with the recent ones of all.
  abbrev Tracks : ℕ → List ℕ → R → Type 0
  Tracks last earlier r =
      (t : ℕ)
      → last < t
      → (es : List ℕ) × (members (pos t) key r ≡ map entry es)
        × (recent w t es ≡ recent w t earlier)
        × All (λ e. e ≤ last) es

  abbrev after_call : ℕ → R → Result ℤ × R
  after_call t r =
      pipeline commands (pos t) key (itoa (lo w t)) (pos (ms t)) (itoa (pos t))
        (pos (w * 1000000 + 1000000000)) r

  allow_lem :
      (t : ℕ) (r : R)
      → allow commands (pos t) (pos t) key (pos max) (pos (w * 1000000)) r
        ≡ (decide (pos max) (after_call t r).0, (after_call t r).1)
  unfolding allow
  allow_lem t r = rw (add64_pos (w * 1000000) 1000000000 room, runs) refl

  decide_lem :
      (n : ℕ) → decide (pos max) (ok (pos n)) ≡ ok (record { allowed = leb n max; count = pos n })
  unfolding decide
  decide_lem n = ground arith

  -- What the transaction makes of a set that the new member is not in.
  after_lem :
      (t : ℕ) (r : R)
      → InInt64 (lo w t)
      → IsNew (itoa (pos t)) (above (lo w t) (members (pos t) key r))
      → let kept = above (lo w t) (members (pos t) key r) in
        ((after_call t r).0 ≡ ok (pos (suc (length kept))))
        × ((after_call t r).1
            ≡ (commands.expire (pos t) key (pos (w * 1000000 + 1000000000)) (filled t r)).1)
        × (members (pos t) key (filled t r) ≡ entry t ∷ kept)
  after_lem t r fits new =
      let removed = (commands.z_rem_range_by_score (pos t) key "0" (itoa (lo w t)) r).1 in
      let rem = removes (pos t) key (lo w t) r fits in
      let new' : IsNew (itoa (pos t)) (members (pos t) key removed) = rw rem.1 new in
      let add = adds (pos t) key (pos (ms t)) (itoa (pos t)) removed new' in
      let set : members (pos t) key (filled t r)
          ≡ entry t ∷ above (lo w t) (members (pos t) key r) =
        add.1 ∙ ap (◌∷◌ (entry t)) rem.1 in
      (
        rw
            (
              rem.0,
              add.0,
              cards (pos t) key (filled t r),
              expire_ok (pos t) key (pos (w * 1000000 + 1000000000)) (filled t r),
            )
            (ap (λ es. ok (pos (length es))) set),
        rw (cards (pos t) key (filled t r)) refl,
        set,
      )

  after-Tracks :
      (last t : ℕ) (earlier : List ℕ) (r : R)
      → last < t
      → t ≤ max_int64
      → All (λ e. e ≤ last) earlier
      → Tracks last earlier r
      → ((after_call t r).0 ≡ ok (pos (suc (length (recent w t earlier)))))
        × Tracks t (t ∷ earlier) (after_call t r).1
  after-Tracks last t earlier r lt le old known =
      let (es, holds, same, old') = known t lt in
      let d = w * 1000000 + 1000000000 in
      let kept : above (lo w t) (members (pos t) key r) ≡ map entry (recent w t earlier) =
        rw holds (above-entries w t es (omega arith) ∙ ap (map entry) same) in
      let older = older-All last t earlier (omega arith) old in
      let new : IsNew (itoa (pos t)) (above (lo w t) (members (pos t) key r)) =
        rw kept
          (entries-IsNew last t (recent w t earlier) lt le (recent-All w last t earlier old)) in
      let (count, next, set) = after_lem t r (lo-InInt64 w t (omega arith) le) new in
      (
        count ∙ ap (λ n. ok (pos (suc n))) (ap length kept ∙ length-map entry (recent w t earlier)),
        λ u later. rw next (elim (Bool-cases (ltb u (t + whole d))) [
          | inl early ↦ (
            t ∷ recent w t earlier,
            lasts (pos t) (pos u) key d (filled t r) (omega arith) (omega arith)
                  (before_sum t (whole d) u early)
                ∙ set
                ∙ ap (◌∷◌ (entry t)) kept,
            rw (recent-recent w t u earlier (omega arith)) refl,
            ((omega arith), recent-All w t t earlier older),
          )
          | inr late ↦ (
            [],
            expires (pos t) (pos u) key d (filled t r) (omega arith) (from_sum t (whole d) u late),
            sym (
                recent-old w t u (t ∷ earlier) (ground (arith, late, whole_more w))
                  (omega arith, older)),
            tt,
          )
        ]),
      )

  tracked :
      (ts : List ℕ) (last : ℕ) (earlier : List ℕ) (r : R)
      → Increasing last ts
      → All (λ e. e ≤ last) earlier
      → Tracks last earlier r
      → decisions commands key (pos max) (pos (w * 1000000)) ts r ≡ count_recent max w earlier ts
  unfolding decisions
  tracked [] last earlier r inc old known = refl
  tracked (t ∷ ts) last earlier r (lt, inc) old known =
      let (out, next) = after-Tracks last t earlier r lt (Increasing-bound t ts inc) old known in
      rw (allow_lem t r, out, decide_lem (suc (length (recent w t earlier))))
        (ap
          (◌∷◌ (
            ok (record {
              allowed = leb (suc (length (recent w t earlier))) max;
              count = pos (suc (length (recent w t earlier)));
            })))
          (tracked ts t (t ∷ earlier) (after_call t r).1 inc
            (omega arith, older-All last t earlier (omega arith) old) next))

  -- From an empty set, each of the calls for one key at increasing times counts itself and the earlier
  -- calls, refused or not, whose milliseconds on the clock are fewer than `w`, the window's, before its own,
  -- and is allowed exactly if they are at most `max`. All clocks agree, each call is made in a nanosecond of
  -- its own, the window is of whole milliseconds, and the server is reached.
  pub sliding_counts :
      (ts : List ℕ) (start : ℕ) (r : R)
      → Increasing start ts
      → ((t : ℕ) → start < t → members (pos t) key r ≡ [])
      → decisions commands key (pos max) (pos (w * 1000000)) ts r ≡ count_recent max w [] ts
  sliding_counts ts start r inc none_yet =
      tracked ts start [] r inc tt (λ t lt. ([], none_yet t lt, refl, tt))
