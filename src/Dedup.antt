-- ===== src/Dedup.antt =====
-- request_dedup.go and request_dedup_option.go: the store of fingerprints and the middlewares on it.
pub mod Window
pub mod Eviction
mod Tests
use ratelimiter_redis.Base.{
  ◌++◌, String, ◌≡◌, Bool, true, false, Option, none, some, List, [], ◌∷◌, if◌then◌else◌,
}
use ratelimiter_redis.Base.Int.{ℤ, ◌+ℤ◌, ◌≤ℤ◌}
use ratelimiter_redis.Base.Clock.{seconds, Time, Duration, Moment, after, before}
use ratelimiter_redis.Base.GoMap.{GoMap, make, assign, delete_where}
use ratelimiter_redis.Http.{Request, Handler, Pointer, null, target, http_error}

pub record DedupStore : Type 0 where
  pub entries : GoMap Time
  pub ttl : Duration

-- The goroutine that `NewDedupStore` starts calls `evict` below at the ticks of its ticker.
abbrev pub new_dedup_store : Duration → DedupStore
new_dedup_store ttl = record { entries = make; ttl = ttl }

-- `ok && time.Now().Before(exp)`
abbrev pub seen : Time → Option Time → Bool
seen now none = false
seen now (some exp) = before now exp

-- IsDuplicate. `mo.first` is the reading that an entry is compared with, and `mo.second` the one that a
-- new entry is made from.
unfoldable pub is_duplicate : Moment → String → DedupStore → Bool × DedupStore
unfolding ◌+ℤ◌
is_duplicate mo fingerprint d =
    if seen mo.first (d.entries fingerprint)
    then (true, d)
    else (false, record d { entries = assign d.entries fingerprint (mo.second +ℤ d.ttl) })

-- One round of `evict`.
unfoldable pub evict : Time → DedupStore → DedupStore
evict now d = record d { entries = delete_where (λ exp. after now exp) d.entries }

-- `WithRequestDedup` rejects with `http_error`; `NewDedupWithOptions` with the handler it is given.
pub dedup_handler :
    {S : Type 0} → Moment → (Request → String) → Handler S → Handler S → Handler (DedupStore × S)
dedup_handler mo key_func on_duplicate next r (d, s) =
    let (dup, d') = is_duplicate mo (key_func r) d in
    if dup
    then (let (calls, s') = on_duplicate r s in (calls, (d', s')))
    else (let (calls, s') = next r s in (calls, (d', s')))

abbrev pub default_dedup_rejected_handler : {S : Type 0} → Handler S
default_dedup_rejected_handler r s = (http_error "duplicate request" 409, s)

-- WithRequestDedup, of a store that is not nil; `none` stands for a nil `keyFunc`.
pub with_request_dedup :
    {S : Type 0}
    → (Request → String)
    → Pointer
    → Option (Request → String)
    → Moment
    → Handler S
    → Option (Handler (DedupStore × S))
with_request_dedup default_key_func null key_func mo next = none
with_request_dedup default_key_func target none mo next =
    some (dedup_handler mo default_key_func default_dedup_rejected_handler next)
with_request_dedup default_key_func target (some key_func) mo next =
    some (dedup_handler mo key_func default_dedup_rejected_handler next)

-- The configuration of `NewDedupWithOptions`.
pub record DedupConfig (S : Type 0) : Type 0 where
  pub config_ttl : Duration
  pub key_func : Request → String
  pub on_duplicate : Handler S

abbrev pub DedupOption : Type 0 → Type 0
DedupOption S = DedupConfig S → DedupConfig S

abbrev pub with_dedup_ttl : {S : Type 0} → Duration → DedupOption S
with_dedup_ttl ttl c = record c { config_ttl = ttl }

abbrev pub with_dedup_key_func : {S : Type 0} → (Request → String) → DedupOption S
with_dedup_key_func fn c = record c { key_func = fn }

abbrev pub with_dedup_handler : {S : Type 0} → Handler S → DedupOption S
with_dedup_handler h c = record c { on_duplicate = h }

abbrev apply_options : {S : Type 0} → List (DedupOption S) → DedupConfig S → DedupConfig S
apply_options [] c = c
apply_options (o ∷ opts) c = apply_options opts (o c)

-- NewDedupWithOptions: the store that it makes, and the middleware. The first argument is
-- `defaultDedupKeyFunc`.
abbrev pub new_dedup_with_options :
    {S : Type 0}
    → (Request → String)
    → List (DedupOption S)
    → DedupStore × (Moment → Handler S → Handler (DedupStore × S))
unfolding dedup_handler
new_dedup_with_options default_key_func opts =
    let cfg = apply_options opts (record {
      config_ttl = seconds 5;
      key_func = default_key_func;
      on_duplicate = default_dedup_rejected_handler;
    }) in
    (new_dedup_store cfg.config_ttl, λ mo next. dedup_handler mo cfg.key_func cfg.on_duplicate next)

-- The calls on a store, in the order in which they take its mutex.
pub data Op : Type 0 where
  checks : String → Op
  evicts : Op

unfoldable pub step : Moment × Op → DedupStore → List Bool × DedupStore
step (mo, checks f) d = let (dup, d') = is_duplicate mo f d in (dup ∷ [], d')
step (mo, evicts) d = ([], evict mo.first d)

-- The answers to the checks.
unfoldable pub run : List (Moment × Op) → DedupStore → List Bool × DedupStore
run [] d = ([], d)
run (o ∷ ops) d = let (a, d') = step o d in let (answers, last) = run ops d' in (a ++ answers, last)

-- Each call's readings are in order, and none before the call before it.
abbrev pub IsOrdered : Time → List (Moment × Op) → Type 0
IsOrdered t [] = Unit {0}
IsOrdered t ((mo, o) ∷ rest) = (t ≤ℤ mo.first) × (mo.first ≤ℤ mo.second) × IsOrdered mo.second rest
