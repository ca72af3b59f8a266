-- ===== src/Coalescing/Leaders.antt =====
-- At most one caller for each key runs `fn`.
use ratelimiter_redis.Base.{
  sym, ◌∙◌, Option-cases, ℕ, ◌+◌, ◌≤◌, ◌≡◌, refl, ap, String, Option, none, some, List, [], ◌∷◌,
  arith, if◌then◌else◌, str_eq, eq_iff, Bool-cases, inl, inr, All,
}
use ratelimiter_redis.Base.Threads.{total, Kept, run-Holds}
use ratelimiter_redis.Coalescing.{
  with_key, Outcome, CoalescingGroup, new_coalescing_group, Phase, entering, running, finished,
  waiting, returned, Caller, callers, join, step_do, act, group_run,
}

-- 1 for a caller that runs `fn`, or has run it and not yet removed the call from the map.
abbrev pub leads : Phase → ℕ
leads (running c) = 1
leads (finished c) = 1
leads _ = 0

abbrev pub leads_for : String → Caller → ℕ
leads_for k t = if str_eq t.key k then leads t.phase else 0

abbrev pub in_flight : Option ℕ → ℕ
in_flight none = 0
in_flight (some c) = 1

abbrev Exact : String → ℕ → CoalescingGroup → Type 0
Exact k n g = n ≡ in_flight (g.inflight k)

abbrev Free : CoalescingGroup → Caller → Type 0
Free g t = Unit {0}

abbrev KeptBy : String → ℕ → CoalescingGroup → Option (Caller × CoalescingGroup) → Type 0
KeptBy k n g none = Unit {0}
KeptBy k n g (some (t, g')) = Exact k (leads_for k t + n) g'

empty :
    (k key : String) (n : ℕ) (g : CoalescingGroup)
    → Exact k n g
    → g.inflight key ≡ none
    → key ≡ k
    → n ≡ 0
empty k key n g h none_found same = h ∙ ap in_flight (ap g.inflight (sym same) ∙ none_found)

at_most_one : (o : Option ℕ) → in_flight o ≤ 1
at_most_one none = omega arith
at_most_one (some c) = omega arith

join-Exact :
    (k key : String) (n : ℕ) (g : CoalescingGroup)
    → Exact k n g
    → KeptBy k n g (with_key key (some (join key (g.inflight key) g)))
join-Exact k key n g h = elim (Option-cases (g.inflight key)) [
  | inr (c, found) ↦ rw found (ground (arith, h))
  | inl none_found ↦ rw none_found (elim (Bool-cases (str_eq key k)) [
    | inl same ↦ rw same (ground (arith, empty k key n g h none_found ((eq_iff key k).0 same)))
    | inr other ↦ rw other (ground (arith, h))
  ])
]

step-Exact :
    (k key : String) (out : Outcome) (p : Phase) (n : ℕ) (g : CoalescingGroup)
    → Exact k ((if str_eq key k then leads p else 0) + n) g
    → KeptBy k n g (with_key key (step_do out key p g))
step-Exact k key out entering n g h = join-Exact k key n g (ground (arith, h))
step-Exact k key out (running c) n g h = h
step-Exact k key out (finished c) n g h = elim (Bool-cases (str_eq key k)) [
  | inl same ↦ rw same (
      ground (arith, at_most_one (g.inflight k), ap (λ b. (if b then 1 else 0) + n) (sym same) ∙ h))
  | inr other ↦ rw other (ground (arith, h))
]
step-Exact k key out (waiting c) n g h = elim (Bool-cases (g.calls c).done) [
  | inl over ↦ rw over (ground (arith, h))
  | inr on ↦ rw on tt
]
step-Exact k key out (returned c o b) n g h = tt

kept :
    (k : String) (n : ℕ) (g : CoalescingGroup) (o : Option (Caller × CoalescingGroup))
    → KeptBy k n g o
    → Kept act (leads_for k) (Exact k) Free n g o
kept k n g none h = tt
kept k n g (some (q, g')) h = (h, tt, λ p' f. f)

none_lead : (k : String) (ks : List String) → total (leads_for k) (callers ks) ≡ 0
none_lead k [] = refl
none_lead k (j ∷ ks) = ground (arith, none_lead k ks)

All-Free : (g : CoalescingGroup) (ts : List Caller) → All (Free g) ts
All-Free g [] = tt
All-Free g (t ∷ ts) = (tt, All-Free g ts)

-- In every interleaving of calls of `Do` on a new group, at most one caller for each key runs `fn` or is
-- yet to remove its call from the map; there is one exactly while the map has the key.
pub one_leader :
    (sched : List (ℕ × Outcome)) (ks : List String) (k : String)
    → let (g, ts) = group_run sched ks in
      (total (leads_for k) ts ≤ 1) × (total (leads_for k) ts ≡ in_flight (g.inflight k))
unfolding act
one_leader sched ks k =
    let last =
      run-Holds act (leads_for k) (Exact k) Free
        (λ e t n g h f. kept k n g (act e t g) (step-Exact k t.key e t.phase n g h)) sched
        new_coalescing_group (callers ks)
        (ground (arith, none_lead k ks), All-Free new_coalescing_group (callers ks)) in
    ground (arith, last.0, at_most_one ((group_run sched ks).0.inflight k))
