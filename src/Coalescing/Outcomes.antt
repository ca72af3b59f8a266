-- ===== src/Coalescing/Outcomes.antt =====
-- Each caller returns what `fn` returned for the call that it made or joined.
use mathlib.Core.Path.{subst}
use ratelimiter_redis.Base.{
  ◌∙◌, sym, ℕ, ◌+◌, ◌≡◌, refl, ap, String, Bool, true, false, Option, none, some, List, [], ◌∷◌,
  arith, if◌then◌else◌, ltb, ◌==◌, Bool-cases, inl, inr, All,
}
use ratelimiter_redis.Base.Threads.{total, Kept, run-Holds}
use ratelimiter_redis.Coalescing.{
  with_key, Outcome, InFlight, CoalescingGroup, new_coalescing_group, Phase, entering, running,
  finished, waiting, returned, Caller, callers, join, step_do, act, group_run, new_call,
}

-- 1 for a caller that runs `fn` for call `c`.
abbrev pub runs_call : ℕ → Caller → ℕ
runs_call c t = elim t.phase [ running d ↦ if c == d then 1 else 0 | _ ↦ 0 ]

abbrev pub bit : Bool → ℕ
bit true = 1
bit false = 0

-- Each call that was made is run by one caller, or is done.
abbrev pub OneRun : ℕ → ℕ → CoalescingGroup → Type 0
OneRun c n g = n + bit (g.calls c).done ≡ bit (ltb c g.made)

-- What a caller of call `c` returned is the call's outcome, and the call is done.
abbrev pub Agrees : ℕ → InFlight → Phase → Type 0
Agrees c f (returned d o coalesced) = if c == d then (f.done ≡ true) × (o ≡ f.outcome) else Unit {0}
Agrees c f (finished d) = if c == d then f.done ≡ true else Unit {0}
Agrees c f _ = Unit {0}

abbrev pub Settled : ℕ → CoalescingGroup → Caller → Type 0
Settled c g t = Agrees c (g.calls c) t.phase

-- Nobody has returned from a call that is not done.
undone : (c : ℕ) (f f' : InFlight) (p : Phase) → f.done ≡ false → Agrees c f p → Agrees c f' p
undone c f f' entering e h = tt
undone c f f' (running d) e h = tt
undone c f f' (waiting d) e h = tt
undone c f f' (finished d) e h = elim (Bool-cases (c == d)) [
  | inl same ↦ ground (arith, e, h, same)
  | inr other ↦ rw other tt
]
undone c f f' (returned d o b) e h = elim (Bool-cases (c == d)) [
  | inl same ↦ ground (arith, e, h, same)
  | inr other ↦ rw other tt
]

bit-false : (b : Bool) → bit b ≡ 0 → b ≡ false
bit-false true h = ground (arith, h)
bit-false false h = refl

eq_true : (c d : ℕ) → (c == d) ≡ true → c ≡ d
eq_true c d h = ground (arith, h)

is_done : (c d : ℕ) (f : InFlight) → (c == d) ≡ true → Agrees c f (finished d) → f.done ≡ true
is_done c d f e h = subst (λ b. if b then f.done ≡ true else Unit {0}) e h

returns :
    (c d : ℕ) (calls : ℕ → InFlight) (b : Bool)
    → ((c == d) ≡ true → (calls c).done ≡ true)
    → Agrees c (calls c) (returned d (calls d).outcome b)
returns c d calls b done = elim (Bool-cases (c == d)) [
  | inl same ↦ rw same (done same, ap (λ x. (calls x).outcome) (sym (eq_true c d same)))
  | inr other ↦ rw other tt
]

abbrev KeptBy : ℕ → ℕ → CoalescingGroup → Option (Caller × CoalescingGroup) → Type 0
KeptBy c n g o = Kept act (runs_call c) (OneRun c) (Settled c) n g o

join-OneRun :
    (c : ℕ) (key : String) (n : ℕ) (g : CoalescingGroup) (o : Option ℕ)
    → OneRun c n g
    → KeptBy c n g (with_key key (some (join key o g)))
join-OneRun c key n g (some d) h = (ground (arith, h), tt, λ p' q. q)
join-OneRun c key n g none h = elim (Bool-cases (c == g.made)) [
  | inl same ↦ rw same (
    ground (arith, h, same),
    tt,
    λ p' q.
        undone c (g.calls c) new_call p'.phase
          (bit-false (g.calls c).done (ground (arith, h, same))) q,
  )
  | inr other ↦ rw other (ground (arith, h, other), tt, λ p' q. q)
]

step-OneRun :
    (c : ℕ) (key : String) (out : Outcome) (p : Phase) (n : ℕ) (g : CoalescingGroup)
    → OneRun c (runs_call c (record { key = key; phase = p }) + n) g
    → Agrees c (g.calls c) p
    → KeptBy c n g (with_key key (step_do out key p g))
step-OneRun c key out entering n g h q = join-OneRun c key n g (g.inflight key) (ground (arith, h))
step-OneRun c key out (running d) n g h q = elim (Bool-cases (c == d)) [
  | inl same ↦ rw same (
    ground (arith, h, same),
    refl,
    λ p' q'.
        undone c (g.calls c) _ p'.phase (bit-false (g.calls c).done (ground (arith, h, same))) q',
  )
  | inr other ↦ rw other (ground (arith, h, other), tt, λ p' q'. q')
]
step-OneRun c key out (finished d) n g h q =
    (h, returns c d g.calls false (λ e. is_done c d (g.calls c) e q), λ p' q'. q')
step-OneRun c key out (waiting d) n g h q = elim (Bool-cases (g.calls d).done) [
  | inl over ↦ rw over (
    h,
    returns c d g.calls true (λ e. ap (λ x. (g.calls x).done) (eq_true c d e) ∙ over),
    λ p' q'. q',
  )
  | inr on ↦ rw on tt
]
step-OneRun c key out (returned d o b) n g h q = tt

none_runs : (c : ℕ) (ks : List String) → total (runs_call c) (callers ks) ≡ 0
none_runs c [] = refl
none_runs c (k ∷ ks) = ground (arith, none_runs c ks)

callers-Settled : (c : ℕ) (ks : List String) → All (Settled c new_coalescing_group) (callers ks)
callers-Settled c [] = tt
callers-Settled c (k ∷ ks) = (tt, callers-Settled c ks)

-- In every interleaving of calls of `Do` on a new group, whoever has returned from a call, as the one
-- that made it or as one that joined it, returns the one outcome that the call has for good; and each
-- call that was made is being run by exactly one caller, until it is done.
pub one_outcome :
    (sched : List (ℕ × Outcome)) (ks : List String) (c : ℕ)
    → let (g, ts) = group_run sched ks in
      All (Settled c g) ts × (total (runs_call c) ts + bit (g.calls c).done ≡ bit (ltb c g.made))
unfolding act
one_outcome sched ks c =
    let last =
      run-Holds act (runs_call c) (OneRun c) (Settled c)
        (λ e t n g h q. step-OneRun c t.key e t.phase n g h q) sched new_coalescing_group
        (callers ks) (ground (arith, none_runs c ks), callers-Settled c ks) in
    (last.1, ground (arith, last.0))
