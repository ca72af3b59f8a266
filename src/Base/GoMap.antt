-- ===== src/Base/GoMap.antt =====
-- Go's `map[string]V`, as the function that a lookup computes. Ranging over a map is used for tests on
-- each entry alone (`delete_where`), so the order of the entries plays no part.
use Prim.Native.String.{String}
use mathlib.Core.Bool.{Bool}
use mathlib.Core.Option.{Option, none, some}
use text.Mathlib.Text.{◌==◌}
use ratelimiter_redis.Base.Tests.{if◌then◌else◌}

abbrev pub GoMap {ℓ} : Type ℓ → Type ℓ
GoMap V = String → Option V

module _ {ℓ} {V : Type ℓ} where
  -- make(map[string]V)
  abbrev pub make : GoMap V
  make k = none

  -- m[k] = v
  abbrev pub assign : GoMap V → String → V → GoMap V
  assign m k v j = if k == j then some v else m j

  -- delete(m, k)
  abbrev pub delete : GoMap V → String → GoMap V
  delete m k j = if k == j then none else m j

  abbrev pub drop_if : (V → Bool) → Option V → Option V
  drop_if p none = none
  drop_if p (some v) = if p v then none else some v

  -- for k, v := range m { if p(v) { delete(m, k) } }
  abbrev pub delete_where : (V → Bool) → GoMap V → GoMap V
  delete_where p m j = drop_if p (m j)
