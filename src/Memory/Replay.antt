-- ===== src/Memory/Replay.antt =====
-- Sequences of calls on a `MemoryStore`, and the store that they are measured against: a map from which
-- entries vanish by themselves as soon as their expiry is past.
use ratelimiter_redis.Base.{
  String, Bool, true, false, if◌then◌else◌, none, some, List, [], ◌∷◌, Result, ok, err,
}
use ratelimiter_redis.Base.Int.{ltb_ℤ, eqb_ℤ, ℤ, pos, negsuc, ◌+ℤ◌, ◌≤ℤ◌, add64}
use ratelimiter_redis.Base.Clock.{zero_time, Time, Duration, Moment, until}
use ratelimiter_redis.Base.GoMap.{GoMap, assign, delete as remove, delete_where}
use ratelimiter_redis.Memory.{MemEntry, MemoryStore, entry_or}
use ratelimiter_redis.Memory

pub data Op : Type 0 where
  increments : String → Duration → Op
  gets asks_ttl deletes : String → Op
  sets sets_nx : String → ℤ → Duration → Op

pub data Reply : Type 0 where
  number : ℤ → Reply
  flag : Bool → Reply
  lasts : Duration → Reply
  done : Reply
  fails : String → Reply

abbrev pub reply {ℓ} : {A : Type ℓ} → (A → Reply) → Result A × MemoryStore → Reply × MemoryStore
reply f (ok a, m) = (f a, m)
reply f (err e, m) = (fails e, m)

unfoldable pub call : Moment → Op → MemoryStore → Reply × MemoryStore
call mo (increments k w) m = reply number (Memory.increment mo k w m)
call mo (gets k) m = reply number (Memory.get mo k m)
call mo (asks_ttl k) m = reply lasts (Memory.ttl mo k m)
call mo (deletes k) m = reply (λ _. done) (Memory.delete k m)
call mo (sets k v d) m = reply (λ _. done) (Memory.set mo k v d m)
call mo (sets_nx k v d) m = reply flag (Memory.set_nx mo k v d m)

unfoldable pub replies : List (Moment × Op) → MemoryStore → List Reply
replies [] m = []
replies ((mo, o) ∷ rest) m = let (a, m') = call mo o m in a ∷ replies rest m'

-- The entry has an expiry, and it is past.
abbrev pub outlived : Time → MemEntry → Bool
outlived now e = if eqb_ℤ e.expiry zero_time then false else ltb_ℤ e.expiry now

-- The entries whose expiry is not past.
abbrev pub live : Time → GoMap MemEntry → GoMap MemEntry
live now = delete_where (outlived now)

-- The calls on a map without expired entries.
unfoldable pub eager_call : Moment → Op → GoMap MemEntry → Reply × GoMap MemEntry
unfolding ◌+ℤ◌
eager_call mo (increments k w) v =
    let e = entry_or (record { value = pos 0; expiry = mo.second +ℤ w }) (v k) in
    (number (add64 e.value (pos 1)), assign v k (record e { value = add64 e.value (pos 1) }))
eager_call mo (gets k) v = (number (elim (v k) [ none ↦ pos 0 | some e ↦ e.value ]), v)
eager_call mo (asks_ttl k) v =
    (lasts (elim (v k) [ none ↦ negsuc 0 | some e ↦ until mo.second e.expiry ]), v)
eager_call mo (deletes k) v = (done, remove v k)
eager_call mo (sets k x d) v = (done, assign v k (record { value = x; expiry = mo.first +ℤ d }))
eager_call mo (sets_nx k x d) v = elim (v k) [
  | some e ↦ (flag false, v)
  | none ↦ (flag true, assign v k (record { value = x; expiry = mo.second +ℤ d }))
]

unfoldable pub eager_replies : List (Moment × Op) → GoMap MemEntry → List Reply
eager_replies [] v = []
eager_replies ((mo, o) ∷ rest) v =
    let (a, v') = eager_call mo o (live mo.first v) in a ∷ eager_replies rest v'

-- The calls follow one another in time, the first of them not before `t`.
abbrev pub IsOrdered : Time → List (Moment × Op) → Type 0
IsOrdered t [] = Unit {0}
IsOrdered t ((mo, o) ∷ rest) = (t ≤ℤ mo.first) × IsOrdered mo.first rest
