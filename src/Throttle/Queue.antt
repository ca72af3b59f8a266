-- ===== src/Throttle/Queue.antt =====
-- What becomes of the requests that found no slot.
use ratelimiter_redis.Base.{
  ℕ, zero, suc, ◌≡◌, refl, Bool, true, false, Option, none, some, List, [], ◌∷◌, arith,
}
use ratelimiter_redis.Throttle.{
  ThrottleConfig, Shared, Phase, arriving, serving, served, Event, act, moved, advance, run,
}

-- Refused a slot: about to queue, in the queue, or answered without the handler.
abbrev pub is_refused : Phase → Bool
is_refused arriving = false
is_refused serving = false
is_refused served = false
is_refused _ = true

abbrev pub refused_at : ℕ → List Phase → Bool
refused_at i [] = false
refused_at zero (p ∷ ps) = is_refused p
refused_at (suc i) (p ∷ ps) = refused_at i ps

act_refused :
    (c : ThrottleConfig) (e : Event) (p : Phase) (ps : List Phase) (s : Shared)
    → is_refused p ≡ true
    → refused_at 0 (moved p ps s (act c e p s)).1 ≡ true
unfolding act
act_refused c e p ps s h = ground arith

moved_tail :
    (p : Phase) (ps : List Phase) (s : Shared) (o : Option (Phase × Shared)) (j : ℕ)
    → refused_at (suc j) (moved p ps s o).1 ≡ refused_at j ps
moved_tail p ps s none j = refl
moved_tail p ps s (some (q, s')) j = refl

advance_refused :
    (c : ThrottleConfig) (e : Event) (i j : ℕ) (s : Shared) (ps : List Phase)
    → refused_at j ps ≡ true
    → refused_at j (advance c e i s ps).1 ≡ true
unfolding advance
advance_refused c e i j s [] h = h
advance_refused c e zero zero s (p ∷ ps) h = act_refused c e p ps s h
advance_refused c e zero (suc j) s (p ∷ ps) h = rw moved_tail h
advance_refused c e (suc i) zero s (p ∷ ps) h = h
advance_refused c e (suc i) (suc j) s (p ∷ ps) h = advance_refused c e i j s ps h

-- A request that found no slot, the queued ones among them, never reaches the handler, however many
-- slots come free: it can only be answered by `exceededHandler` or given up by its client.
pub refused_never_served :
    (c : ThrottleConfig) (sched : List (ℕ × Event)) (j : ℕ) (s : Shared) (ps : List Phase)
    → refused_at j ps ≡ true
    → refused_at j (run c sched s ps).1 ≡ true
unfolding run
refused_never_served c [] j s ps h = h
refused_never_served c ((i, e) ∷ sched) j s ps h =
    refused_never_served c sched j _ _ (advance_refused c e i j s ps h)
