-- ===== src/Coalescing.antt =====
-- request_coalescing.go and request_coalescing_option.go: concurrent calls of `Do` as steps between the
-- operations on the mutex, the wait group and `fn`, and the middleware's response.
pub mod Leaders
pub mod Outcomes
mod Tests
use ratelimiter_redis.Base.{
  str_eq, ok, err, Result, ℕ, suc, String, Bool, true, false, Option, none, some, List, [], ◌∷◌,
  ◌==◌, if◌then◌else◌,
}
use ratelimiter_redis.Base.Int.{ℤ, pos}
use ratelimiter_redis.Base.GoMap.{GoMap, make, assign, delete}
use ratelimiter_redis.Base.Threads.{run}
use ratelimiter_redis.Http.{Call, set_header, Request, Handler, Pointer, null, target}

-- What `fn` returns: a value and an error, if there is one.
pub record Outcome : Type 0 where
  pub val : ℤ
  pub err : Option String

-- A `call`; `done` says that its wait group is at 0.
pub record InFlight : Type 0 where
  pub outcome : Outcome
  pub done : Bool

-- `inflight` maps to pointers, numbered in the order in which the calls were made; `calls` is the heap.
pub record CoalescingGroup : Type 0 where
  pub inflight : GoMap ℕ
  pub calls : ℕ → InFlight
  pub made : ℕ

abbrev pub new_call : InFlight
new_call = record { outcome = record { val = pos 0; err = none }; done = false }

abbrev pub new_coalescing_group : CoalescingGroup
new_coalescing_group = record { inflight = make; calls = λ c. new_call; made = 0 }

-- Where a caller stands: before it locks the mutex; in `fn`, for the call that it made; after
-- `wg.Done()`; in `wg.Wait()`; past `Do`, with the call whose result it returns, and `coalesced`.
pub data Phase : Type 0 where
  entering : Phase
  running : ℕ → Phase
  finished : ℕ → Phase
  waiting : ℕ → Phase
  returned : ℕ → Outcome → Bool → Phase

pub record Caller : Type 0 where
  pub key : String
  pub phase : Phase

-- c.val, c.err = fn(); c.wg.Done()
abbrev pub complete : ℕ → Outcome → CoalescingGroup → CoalescingGroup
complete c out g = record g {
  calls = λ d. if d == c then record { outcome = out; done = true } else g.calls d;
}

-- The section under the mutex at the beginning: the caller finds a call of its key or makes one.
abbrev pub join : String → Option ℕ → CoalescingGroup → Phase × CoalescingGroup
join key (some c) g = (waiting c, g)
join key none g = (
  running g.made,
  record g {
    inflight = assign g.inflight key g.made;
    calls = λ d. if d == g.made then new_call else g.calls d;
    made = suc g.made;
  },
)

-- A step of `Do`; the event is what `fn` returns, if the step is its return.
abbrev pub step_do : Outcome → String → Phase → CoalescingGroup → Option (Phase × CoalescingGroup)
step_do out key entering g = some (join key (g.inflight key) g)
step_do out key (running c) g = some (finished c, complete c out g)
step_do out key (finished c) g =
    some (returned c (g.calls c).outcome false, record g { inflight = delete g.inflight key })
step_do out key (waiting c) g =
    if (g.calls c).done then some (returned c (g.calls c).outcome true, g) else none
step_do out key (returned c o coalesced) g = none

abbrev with_key : String → Option (Phase × CoalescingGroup) → Option (Caller × CoalescingGroup)
with_key k none = none
with_key k (some (p, g)) = some (record { key = k; phase = p }, g)

unfoldable pub act : Outcome → Caller → CoalescingGroup → Option (Caller × CoalescingGroup)
act out t g = with_key t.key (step_do out t.key t.phase g)

abbrev pub callers : List String → List Caller
callers [] = []
callers (k ∷ ks) = record { key = k; phase = entering } ∷ callers ks

-- Calls of `Do` for the keys, on a new group.
abbrev pub group_run : List (ℕ × Outcome) → List String → CoalescingGroup × List Caller
group_run sched ks = run act sched new_coalescing_group (callers ks)

-- What `WithRequestCoalescing` has `Do` call: `return 1, nil`.
abbrev pub one_count : Outcome
one_count = record { val = pos 1; err = none }

-- The handler for a request whose key is not empty; `coalesced` is what `Do` returns.
abbrev pub serve_coalesced : {S : Type 0} → Bool → Handler S → Handler S
serve_coalesced coalesced next r s =
    let (calls, s') = next r s in
    (
      set_header "X-Coalesced" "false"
          ∷ (if coalesced then set_header "X-Coalesced" "true" ∷ calls else calls),
      s',
    )

-- The rest of the handler: a key function that fails, or an empty key, leaves `Do` out.
abbrev pub serve_key : {S : Type 0} → (String → Bool) → Handler S → Result String → Handler S
serve_key coalesced next (err e) r s = serve_coalesced false next r s
serve_key coalesced next (ok key) r s =
    if str_eq key ""
    then serve_coalesced false next r s
    else serve_coalesced (coalesced key) next r s

-- WithRequestCoalescing; it panics where the group or the key function is nil. `coalesced` is what `Do`
-- returns for a key.
abbrev pub with_request_coalescing :
    {S : Type 0}
    → Pointer
    → (String → Bool)
    → Option (Request → Result String)
    → Handler S
    → Option (Handler S)
with_request_coalescing null coalesced key_func next = none
with_request_coalescing target coalesced none next = none
with_request_coalescing target coalesced (some key_func) next =
    some (λ r s. serve_key coalesced next (key_func r) r s)

abbrev pub CoalescingConfig : Type 0
CoalescingConfig = Request → String

abbrev pub with_coalescing_key_func : (Request → String) → CoalescingConfig → CoalescingConfig
with_coalescing_key_func fn cfg = fn

abbrev apply_options :
    List (CoalescingConfig → CoalescingConfig) → CoalescingConfig → CoalescingConfig
apply_options [] cfg = cfg
apply_options (o ∷ opts) cfg = apply_options opts (o cfg)

-- NewCoalescingGroupWithOptions; the first argument is `defaultKeyFunc`.
abbrev pub new_coalescing_group_with_options :
    (Request → String)
    → List (CoalescingConfig → CoalescingConfig)
    → CoalescingGroup × (Request → String)
new_coalescing_group_with_options default_key_func opts =
    (new_coalescing_group, apply_options opts default_key_func)
