-- ===== src/Hedging/Progress.antt =====
-- How far the attempts have come, and what is kept by every step.
use mathlib.Core.List.{◌++◌}
use ratelimiter_redis.Base.{
  false, ◌<◌, ℕ, ◌≡◌, ◌≢◌, refl, ap, inl, inr, ◌⊎◌, Bool, true, ◌||◌, List, [], ◌∷◌, arith, ltb,
  ◌==◌, Bool-cases, if◌then◌else◌,
}
use ratelimiter_redis.Http.{Call}
use ratelimiter_redis.Hedging.{
  Writers, new_writers, race, attempt_call, Launching, loop_step, LoopEvent, attempt_ends,
  receives_done, receives_timer,
}
use ratelimiter_redis.Hedging.Handler.{Attempts}

pub cons_not_nil : {A : Type 0} (x : A) (xs : List A) → (x ∷ xs) ≢ []
cons_not_nil x xs e = ground (arith, e)

-- The calls that attempt `i` made.
abbrev pub made_by : ℕ → List (ℕ × Call) → List Call
made_by i [] = []
made_by i ((j, c) ∷ es) = let rest = made_by i es in if i == j then c ∷ rest else rest

pub made_by-append :
    (i : ℕ) (xs ys : List (ℕ × Call)) → made_by i (xs ++ ys) ≡ made_by i xs ++ made_by i ys
made_by-append i [] ys = refl
made_by-append i ((j, c) ∷ xs) ys = elim (Bool-cases (i == j)) [
  | inl e ↦ rw e (ap (◌∷◌ c) (made_by-append i xs ys))
  | inr e ↦ rw e (made_by-append i xs ys)
]

pub append_assoc : {A : Type 0} (xs ys zs : List A) → (xs ++ ys) ++ zs ≡ xs ++ (ys ++ zs)
append_assoc [] ys zs = refl
append_assoc (x ∷ xs) ys zs = ap (◌∷◌ x) (append_assoc xs ys zs)

pub race-append :
    (xs ys : List (ℕ × Call)) (ws : Writers)
    → race (xs ++ ys) ws
      ≡ ((race xs ws).0 ++ (race ys (race xs ws).1).0, (race ys (race xs ws).1).1)
unfolding race
race-append [] ys ws = refl
race-append ((i, c) ∷ xs) ys ws =
    let (out, ws') = attempt_call i c ws in
    rw (race-append xs ys ws', append_assoc out (race xs ws').0 (race ys (race xs ws').1).0) refl

-- Every attempt has made some of its calls and has the others left; what reached the client is what the
-- calls before the return do in their order; and behind a message there is an attempt all of whose calls
-- came before the return.
pub record IsSound (calls : ℕ → List Call) (a : Attempts) : Type 0 where
  pub split : (i : ℕ) → made_by i a.log ++ a.left i ≡ calls i
  pub same : a.loop.returned ≡ false → a.in_time ≡ a.log
  pub raced : (race a.in_time new_writers).0 ≡ a.out
  pub claims : a.loop.returned ≡ false → (race a.in_time new_writers).1 ≡ a.writers
  pub served :
      (ltb 0 a.loop.done || a.loop.returned) ≡ true
      → (i : ℕ) × (i < a.loop.launched) × (a.left i ≡ []) × (made_by i a.in_time ≡ calls i)

pub same_number : (i j : ℕ) → (i == j) ≡ true → i ≡ j
same_number i j e = ground (arith, e)

pub List-cases : {A : Type 0} (xs : List A) → (xs ≡ []) ⊎ ((x : A) × (ys : List A) × (xs ≡ x ∷ ys))
List-cases [] = inl refl
List-cases (x ∷ xs) = inr (x, xs, refl)

-- A message, or one that was received, was there before.
abbrev pub heard : Launching → Bool
heard l = ltb 0 l.done || l.returned

pub done_before : (l : Launching) → heard (loop_step receives_done l) ≡ true → heard l ≡ true
unfolding loop_step
done_before l p = ground (arith, p)

pub timer_before : (l : Launching) → heard (loop_step receives_timer l) ≡ true → heard l ≡ true
unfolding loop_step
timer_before l p = ground (arith, p)

pub still_launched :
    (e : LoopEvent) (i : ℕ) (l : Launching) → i < l.launched → i < (loop_step e l).launched
unfolding loop_step
still_launched attempt_ends i l h = h
still_launched receives_done i l h = ground arith
still_launched receives_timer i l h = ground arith

pub returned_before :
    (e : LoopEvent) (l : Launching) → (loop_step e l).returned ≡ false → l.returned ≡ false
unfolding loop_step
returned_before attempt_ends l p = p
returned_before receives_done l p = ground (arith, p)
returned_before receives_timer l p = ground (arith, p)
