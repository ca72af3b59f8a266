-- ===== src/Base/Threads.antt =====
-- Goroutines that share a state, under a schedule that says whose step is next. `act` is the step of one
-- goroutine on an event: `none` where it has none, or would block.
use ratelimiter_redis.Base.Lists.{All}
use Prim.Native.Nat.{ℕ, zero, suc, ◌+◌}
use mathlib.Core.Path.{subst}
use mathlib.Core.Option.{Option, none, some}
use mathlib.Core.List.{List, [], ◌∷◌}
use native.Mathlib.Omega.{arith}

-- The sum over the goroutines of a number that each has.
abbrev pub total : {P : Type 0} → (P → ℕ) → List P → ℕ
total w [] = 0
total w (p ∷ ps) = w p + total w ps

module _ {E G P : Type 0} (act : E → P → G → Option (P × G)) where
  abbrev pub moved : P → List P → G → Option (P × G) → G × List P
  moved p ps g none = (g, p ∷ ps)
  moved p ps g (some (q, g')) = (g', q ∷ ps)

  -- The step of the goroutine at an index.
  unfoldable pub advance : E → ℕ → G → List P → G × List P
  advance e i g [] = (g, [])
  advance e zero g (p ∷ ps) = moved p ps g (act e p g)
  advance e (suc i) g (p ∷ ps) = let (g', ps') = advance e i g ps in (g', p ∷ ps')

  unfoldable pub run : List (ℕ × E) → G → List P → G × List P
  unfolding advance
  run [] g ps = (g, ps)
  run ((i, e) ∷ sched) g ps = let (g', ps') = advance e i g ps in run sched g' ps'

  -- An invariant: `R`, of a total and the shared state, and `Q`, of the shared state and each goroutine.
  module _ (w : P → ℕ) (R : ℕ → G → Type 0) (Q : G → P → Type 0) where
    -- What a step has to keep, beside goroutines whose total is `n`.
    abbrev pub Kept : ℕ → G → Option (P × G) → Type 0
    Kept n g none = Unit {0}
    Kept n g (some (q, g')) = R (w q + n) g' × (Q g' q) × ((p' : P) → Q g p' → Q g' p')

    abbrev pub Holds : ℕ → G × List P → Type 0
    Holds n (g, ps) = R (total w ps + n) g × All (Q g) ps

    -- What is added to a state that holds by one goroutine more.
    abbrev Later : ℕ → G → G × List P → Type 0
    Later n g (g', ps) = Holds n (g', ps) × ((p' : P) → Q g p' → Q g' p')

    Q-All : (g g' : G) (ps : List P) → ((p' : P) → Q g p' → Q g' p') → All (Q g) ps → All (Q g') ps
    Q-All g g' [] f h = tt
    Q-All g g' (p ∷ ps) f (h, hs) = (f p h, Q-All g g' ps f hs)

    regroup : (g : G) (a b c : ℕ) → R (a + b + c) g → R (b + (a + c)) g
    regroup g a b c h = subst (λ k. R k g) (omega arith) h

    moved-Later :
        (n : ℕ) (g : G) (p : P) (ps : List P) (o : Option (P × G))
        → Holds n (g, p ∷ ps)
        → Kept (total w ps + n) g o
        → Later n g (moved p ps g o)
    moved-Later n g p ps none h k = (h, λ p' q. q)
    moved-Later n g p ps (some (q, g')) (h, hs) (r, q', f) =
        ((subst (λ k. R k g') (omega arith) r, (q', Q-All g g' ps f hs.1)), f)

    module _
        (step : (e : E) (p : P) (n : ℕ) (g : G)
          → R (w p + n) g
          → Q g p
          → Kept n g (act e p g)) where
      advance-Later :
          (e : E) (i n : ℕ) (g : G) (ps : List P) → Holds n (g, ps) → Later n g (advance e i g ps)
      unfolding advance
      advance-Later e i n g [] h = (h, λ p' q. q)
      advance-Later e zero n g (p ∷ ps) (h, hs) =
          moved-Later n g p ps (act e p g) (h, hs)
            (step e p (total w ps + n) g (subst (λ k. R k g) (omega arith) h) hs.0)
      advance-Later e (suc i) n g (p ∷ ps) (h, hs) =
          let (rest, f) =
            advance-Later e i (w p + n) g ps (regroup g (w p) (total w ps) n h, hs.1) in
          ((subst (λ k. R k (advance e i g ps).0) (omega arith) rest.0, (f p hs.0, rest.1)), f)

      -- What every step keeps holds after every schedule.
      pub run-Holds :
          (sched : List (ℕ × E)) (g : G) (ps : List P) → Holds 0 (g, ps) → Holds 0 (run sched g ps)
      unfolding run
      run-Holds [] g ps h = h
      run-Holds ((i, e) ∷ sched) g ps h = run-Holds sched _ _ (advance-Later e i 0 g ps h).0
