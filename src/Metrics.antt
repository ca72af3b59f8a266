-- ===== src/Metrics.antt =====
-- metrics.go: three atomic counters, and the methods that one goroutine runs alone.
pub mod Interleaving
pub mod Middleware
mod Tests
use ratelimiter_redis.Base.Int.{ℤ, pos, add64}

pub record Metrics : Type 0 where
  pub allowed : ℤ
  pub blocked : ℤ
  pub total : ℤ

abbrev pub new_metrics : Metrics
new_metrics = record { allowed = pos 0; blocked = pos 0; total = pos 0 }

-- The atomic steps, in the order in which the methods make them.
abbrev pub add_total : Metrics → Metrics
add_total m = record m { total = add64 m.total (pos 1) }

abbrev pub add_allowed : Metrics → Metrics
add_allowed m = record m { allowed = add64 m.allowed (pos 1) }

abbrev pub add_blocked : Metrics → Metrics
add_blocked m = record m { blocked = add64 m.blocked (pos 1) }

abbrev pub record_allowed : Metrics → Metrics
record_allowed m = add_allowed (add_total m)

abbrev pub record_blocked : Metrics → Metrics
record_blocked m = add_blocked (add_total m)

abbrev pub store_allowed : Metrics → Metrics
store_allowed m = record m { allowed = pos 0 }

abbrev pub store_blocked : Metrics → Metrics
store_blocked m = record m { blocked = pos 0 }

abbrev pub store_total : Metrics → Metrics
store_total m = record m { total = pos 0 }

abbrev pub reset : Metrics → Metrics
reset m = store_total (store_blocked (store_allowed m))
