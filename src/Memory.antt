-- ===== src/Memory.antt =====
-- memory_store.go: each method holds the mutex from its start to its end, so it is one step.
pub mod Replay
pub mod Refinement
pub mod Counting
mod Tests
use ratelimiter_redis.Base.{
  String, Bool, true, false, ◌&&◌, not, Option, none, some, Result, ok, if◌then◌else◌,
}
use ratelimiter_redis.Base.Int.{ℤ, pos, negsuc, ◌+ℤ◌, add64}
use ratelimiter_redis.Base.Clock.{Time, Duration, Moment, is_zero, after, until}
use ratelimiter_redis.Base.GoMap.{GoMap, make, assign, delete as remove}
use ratelimiter_redis.Store.{Store}

pub record MemEntry : Type 0 where
  pub value : ℤ
  pub expiry : Time

pub record MemoryStore : Type 0 where
  pub entries : GoMap MemEntry

abbrev pub new_memory_store : MemoryStore
new_memory_store = record { entries = make }

abbrev pub expired : Time → MemEntry → Bool
expired now e = not (is_zero e.expiry) && after now e.expiry

-- `get`: an entry that has expired is deleted on the way.
pub lookup : Time → String → MemoryStore → Option MemEntry × MemoryStore
lookup now key m = elim (m.entries key) [
  | none ↦ (none, record { entries = remove m.entries key })
  | some e ↦
      if expired now e then (none, record { entries = remove m.entries key }) else (some e, m)
]

abbrev pub entry_or : MemEntry → Option MemEntry → MemEntry
entry_or new none = new
entry_or new (some e) = e

pub increment : Moment → String → Duration → MemoryStore → Result ℤ × MemoryStore
unfolding ◌+ℤ◌
increment mo key window m =
    let (found, m') = lookup mo.first key m in
    let e = entry_or (record { value = pos 0; expiry = mo.second +ℤ window }) found in
    let counted = record e { value = add64 e.value (pos 1) } in
    (ok counted.value, record { entries = assign m'.entries key counted })

pub get : Moment → String → MemoryStore → Result ℤ × MemoryStore
get mo key m =
    let (found, m') = lookup mo.first key m in
    (ok (elim found [ none ↦ pos 0 | some e ↦ e.value ]), m')

-- Its only reading of the clock is the first.
pub set : Moment → String → ℤ → Duration → MemoryStore → Result (Unit {0}) × MemoryStore
unfolding ◌+ℤ◌
set mo key value expiry m = (
  ok tt,
  record { entries = assign m.entries key (record { value = value; expiry = mo.first +ℤ expiry }) },
)

pub set_nx : Moment → String → ℤ → Duration → MemoryStore → Result Bool × MemoryStore
unfolding ◌+ℤ◌
set_nx mo key value expiry m =
    let (found, m') = lookup mo.first key m in
    elim found [
      | some e ↦ (ok false, m')
      | none ↦ (
        ok true,
        record {
          entries = assign m'.entries key (record { value = value; expiry = mo.second +ℤ expiry });
        },
      )
    ]

pub ttl : Moment → String → MemoryStore → Result Duration × MemoryStore
ttl mo key m =
    let (found, m') = lookup mo.first key m in
    (ok (elim found [ none ↦ negsuc 0 | some e ↦ until mo.second e.expiry ]), m')

pub delete : String → MemoryStore → Result (Unit {0}) × MemoryStore
delete key m = (ok tt, record { entries = remove m.entries key })

pub ping : MemoryStore → Result (Unit {0}) × MemoryStore
ping m = (ok tt, m)

-- `MemoryStore` implements `Store`.
abbrev pub memory_store : Store MemoryStore
memory_store = record {
  increment = increment;
  get = get;
  set = set;
  set_nx = set_nx;
  ttl = ttl;
  delete = delete;
  ping = ping;
}
