-- ===== src/Redis/TokenBucket/Refill.antt =====
-- The script of the token bucket against the ideal one, where the arithmetic is exact.
use native.Mathlib.Nat.{mul-le-mul_right}
use ratelimiter_redis.Leaky.Bound.{Ordered, Ordered-end}
use ratelimiter_redis.Base.{
  All, map, ℕ, ◌+◌, ◌-◌, ◌*◌, ◌≤◌, ◌≡◌, refl, Bool, true, false, List, [], ◌∷◌, arith, ltb,
  if◌then◌else◌, Bool-cases, inl, inr, String, none, Result, ok, ap, ◌∙◌, sym,
}
use ratelimiter_redis.Base.Int.{eqb_ℤ, ℤ, pos, max_int64}
use ratelimiter_redis.Base.Clock.{unix_milli}
use ratelimiter_redis.Redis.TokenBucket.{
  or_else, Float, Commands, TokenBucketCounter, script, new_tokens, tokens_key, ts_key, allow,
}
use ratelimiter_redis.Redis.TokenBucket.Laws.{
  Exact, OnGrid, Expiring, capped_full, ttl_double, keys_differ,
}
use ratelimiter_redis.Redis.TokenBucket.Levels.{new_tokens_num, fresh_num, one_num, lt_one}
use ratelimiter_redis.Redis.TokenBucket.Ideal.{
  granted-ok, granted, ideal_bound, ms, inflow, inflow_sum, capped, ideal,
}

module _ {F R : Type 0} (float : Float F) (commands : Commands F R) (num : ℕ → F)
    (big unit p grid : ℕ) (rate : F) (exact : Exact float num big unit p grid rate)
    (expiring : Expiring commands) (burst w until : ℕ) (key : String)
    (room : w * 1000000 ≤ max_int64) (whole : burst * unit ≤ w * 2 * p) (unit_fits : unit ≤ big)
    (times_fit : ms until * unit ≤ big) (tokens_fit : burst * unit + ms until * p ≤ big)
    (send : (R → ℤ × R) → R → Result ℤ × R)
    (runs : (f : R → ℤ × R) (r : R) → send f r ≡ (ok (f r).0, (f r).1)) where
  abbrev pub bucket : TokenBucketCounter F
  bucket = record { rate = rate; burst = pos burst; window = pos (w * 1000000) }

  abbrev of : ℕ → F
  of n = float.of_int (pos n)

  -- What the script computes first, at a time `t`.
  abbrev tokens_at : ℕ → R → F
  tokens_at t r =
      new_tokens float rate (of burst) (of (ms t))
        (or_else float (of burst) (commands.get (pos t) (tokens_key key) r))
        (or_else float (of (ms t)) (commands.get (pos t) (ts_key key) r))

  -- At every time of the grid from the last call on, the script would find the level of the ideal bucket.
  abbrev Tracks : ℕ → ℕ → R → Type 0
  Tracks level last r =
      (t : ℕ)
      → last ≤ t
      → t ≤ until
      → OnGrid grid (ms t)
      → tokens_at t r ≡ num (capped (burst * unit) (level + inflow p last t))

  refused-Tracks :
      (level last t : ℕ) (r : R)
      → last ≤ t
      → Tracks level last r
      → Tracks (capped (burst * unit) (level + inflow p last t)) t r
  refused-Tracks level last t r le known u later fits g =
      known u (omega arith) fits g
      ∙ ap num (let sum = inflow_sum p last t u le later in ground (arith, sum))

  taken : ℕ → F → R → R
  taken t x r =
      commands.set_px (pos t) (ts_key key) (of (ms t)) (pos (w * 2))
        (commands.set_px (pos t) (tokens_key key) x (pos (w * 2)) r)

  taken-Tracks :
      (level t : ℕ) (x : F) (r : R)
      → OnGrid grid (ms t)
      → level ≤ burst * unit
      → x ≡ num level
      → Tracks level t (taken t x r)
  unfolding taken
  taken-Tracks level t x r gt le eq u later fits gu =
      elim (Bool-cases (ltb u (t + w * 2 * 1000000))) [
        | inl early ↦
            rw
              (
                expiring.set_other (pos t) (pos u) (ts_key key) (tokens_key key) (of (ms t))
                    (pos (w * 2)) (commands.set_px (pos t) (tokens_key key) x (pos (w * 2)) r)
                    (λ e. keys_differ key (sym e)),
                expiring.set_lasts t u (w * 2) (tokens_key key) x r later (ground (arith, early)),
                expiring.set_lasts t u (w * 2) (ts_key key) (of (ms t))
                    (commands.set_px (pos t) (tokens_key key) x (pos (w * 2)) r) later
                    (ground (arith, early)),
              )
              (ap (λ y. new_tokens float rate (of burst) (of (ms u)) y (of (ms t))) eq
                ∙ (new_tokens_num float num big unit p grid rate exact burst until unit_fits
                      times_fit tokens_fit)
                    (ms t) (ms u) level gt gu (omega arith) (omega arith) le)
        | inr late ↦
            rw
              (
                expiring.set_other (pos t) (pos u) (ts_key key) (tokens_key key) (of (ms t))
                    (pos (w * 2)) (commands.set_px (pos t) (tokens_key key) x (pos (w * 2)) r)
                    (λ e. keys_differ key (sym e)),
                expiring.set_expires t u (w * 2) (tokens_key key) x r (ground (arith, late)),
                expiring.set_expires t u (w * 2) (ts_key key) (of (ms t))
                    (commands.set_px (pos t) (tokens_key key) x (pos (w * 2)) r)
                    (ground (arith, late)),
              )
              ((fresh_num float num big unit p grid rate exact burst until unit_fits times_fit
                    tokens_fit)
                  (ms u) gu (omega arith)
                ∙ ap num (
                    sym (
                      capped_full (burst * unit) (level + inflow p t u) (
                        let time =
                          mul-le-mul_right {m = w * 2} {n = ms u - ms t} p (ground (arith, late)) in
                        omega arith))))
      ]

  -- The answers of `Allow` at the times, which are those of all clocks.
  pub answers : List ℕ → R → List (Result Bool)
  answers [] r = []
  answers (t ∷ ts) r =
      let (d, r') = allow float commands send bucket (pos t) (pos t) key r in d ∷ answers ts r'

  -- The script's run of the call at `t`.
  abbrev run_script : ℕ → R → ℤ × R
  run_script t =
      script float commands (pos t) (tokens_key key) (ts_key key) rate (of burst) (of (ms t))
        (pos (w * 2))

  script_lem :
      (t : ℕ) (r : R)
      → run_script t r ≡ (
          if float.lt (tokens_at t r) (of 1)
          then (pos 0, r)
          else (pos 1, taken t (float.sub (tokens_at t r) (of 1)) r))
  unfolding script taken
  script_lem t r = refl

  allow_lem :
      (t : ℕ) (r : R)
      → allow float commands send bucket (pos t) (pos t) key r
        ≡ (ok (eqb_ℤ (run_script t r).0 (pos 1)), (run_script t r).1)
  unfolding allow unix_milli
  allow_lem t r = rw (ttl_double w room, runs (run_script t) r) refl

  allow_refused :
      (t : ℕ) (r : R)
      → float.lt (tokens_at t r) (of 1) ≡ true
      → allow float commands send bucket (pos t) (pos t) key r ≡ (ok false, r)
  allow_refused t r e = rw (allow_lem t r, script_lem t r, e) refl

  allow-taken :
      (t : ℕ) (r : R)
      → float.lt (tokens_at t r) (of 1) ≡ false
      → allow float commands send bucket (pos t) (pos t) key r
        ≡ (ok true, taken t (float.sub (tokens_at t r) (of 1)) r)
  allow-taken t r e = rw (allow_lem t r, script_lem t r, e) refl

  -- The answer of `Allow` at `t`, and the state after it, for an ideal bucket at `now`.
  Follows : ℕ → ℕ → R → Type 0
  Follows now t r =
      let (d, r') = allow float commands send bucket (pos t) (pos t) key r in
      if ltb now unit
      then (d ≡ ok false) × Tracks now t r'
      else (d ≡ ok true) × Tracks (now - unit) t r'

  capped_le : (x : ℕ) → capped (burst * unit) x ≤ burst * unit
  capped_le x = ground arith

  allow-Follows :
      (level last t : ℕ) (r : R)
      → last ≤ t
      → t ≤ until
      → OnGrid grid (ms t)
      → Tracks level last r
      → Follows (capped (burst * unit) (level + inflow p last t)) t r
  unfolding Follows
  allow-Follows level last t r le fits g known =
      let now = capped (burst * unit) (level + inflow p last t) in
      let full = capped_le (level + inflow p last t) in
      let test : float.lt (tokens_at t r) (of 1) ≡ ltb now unit =
        ap (λ x. float.lt x (of 1)) (known t le fits g)
        ∙ (lt_one float num big unit p grid rate exact burst until unit_fits times_fit tokens_fit)
            now (omega arith) in
      elim (Bool-cases (ltb now unit)) [
        | inl e ↦
            rw (e, allow_refused t r (test ∙ e)) (refl, refused-Tracks level last t r le known)
        | inr e ↦
            let rest : float.sub (tokens_at t r) (of 1) ≡ num (now - unit) =
              ap (λ x. float.sub x (of 1)) (known t le fits g)
              ∙ ap (float.sub (num now)) (
                  one_num float num big unit p grid rate exact burst until unit_fits times_fit
                    tokens_fit)
              ∙ exact.sub_num now unit (ground (arith, e)) (omega arith) in
            rw (e, allow-taken t r (test ∙ e))
              (
                refl,
                taken-Tracks (now - unit) t (float.sub (tokens_at t r) (of 1)) r g (omega arith)
                    rest,
              )
      ]

  -- All at points of the grid.
  abbrev pub AllOnGrid : List ℕ → Type 0
  AllOnGrid ts = All (λ t. OnGrid grid (ms t)) ts

  follow :
      (ts : List ℕ) (level last : ℕ) (r : R)
      → Ordered last until ts
      → AllOnGrid ts
      → Tracks level last r
      → answers ts r ≡ map ok (ideal (burst * unit) unit p level last ts)
  unfolding answers Follows
  follow [] level last r o g known = refl
  follow (t ∷ ts) level last r (le, o) (g, gs) known =
      let now = capped (burst * unit) (level + inflow p last t) in
      let next = allow-Follows level last t r le (Ordered-end t until ts o) g known in
      elim (Bool-cases (ltb now unit)) [
        | inl e ↦
            let next = simp e at next in
            rw (e, next.0) (ap (◌∷◌ (ok false)) (follow ts now t _ o gs next.1))
        | inr e ↦
            let next = simp e at next in
            rw (e, next.0) (ap (◌∷◌ (ok true)) (follow ts (now - unit) t _ o gs next.1))
      ]

  abbrev Absent : ℕ → R → Type 0
  Absent start r =
      (t : ℕ)
      → start ≤ t
      → (commands.get (pos t) (tokens_key key) r ≡ none)
        × (commands.get (pos t) (ts_key key) r ≡ none)

  fresh-Tracks : (start : ℕ) (r : R) → Absent start r → Tracks (burst * unit) start r
  fresh-Tracks start r gone t le fits g =
      rw ((gone t le).0, (gone t le).1)
        ((fresh_num float num big unit p grid rate exact burst until unit_fits times_fit tokens_fit)
          (ms t) g (omega arith))
      ∙ ap num (sym (capped_full (burst * unit) (burst * unit + inflow p start t) (omega arith)))

  -- The calls of `Allow` for a key without an entry, in order of time, are answered like those of a full
  -- bucket that refills all the time. The clocks of the caller and of the server agree, and each call comes
  -- at a time of the grid and up to a last one at which the arithmetic is exact; the server runs the
  -- scripts; the window is of whole milliseconds, and `burst` tokens are at most what comes in two windows.
  pub script-ideal :
      (ts : List ℕ) (start : ℕ) (r : R)
      → Ordered start until ts
      → AllOnGrid ts
      → Absent start r
      → answers ts r ≡ map ok (ideal (burst * unit) unit p (burst * unit) start ts)
  script-ideal ts start r o g gone =
      follow ts (burst * unit) start r o g (fresh-Tracks start r gone)

  -- The calls of `Allow` for a key without an entry, in order of time from `start` to `until`, are granted at
  -- most `burst` tokens and what comes in these milliseconds. The clocks of the caller and of the server
  -- agree, and each call comes at a time of the grid, `until` being one up to which the arithmetic is exact;
  -- the server runs the scripts; the window is of whole milliseconds, and `burst` tokens are at most what
  -- comes in two windows.
  pub token_bound :
      (ts : List ℕ) (start : ℕ) (r : R)
      → Ordered start until ts
      → AllOnGrid ts
      → Absent start r
      → granted (answers ts r) * unit ≤ burst * unit + inflow p start until
  token_bound ts start r o g gone =
      rw
        (
          script-ideal ts start r o g gone,
          granted-ok (ideal (burst * unit) unit p (burst * unit) start ts),
        )
        (ideal_bound (burst * unit) unit p ts (burst * unit) start until (omega arith) o)
