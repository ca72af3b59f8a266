-- ===== src/Access/Whitelist.antt =====
-- whitelist.go.
use ratelimiter_redis.Base.{
  String, ◌≡◌, refl, Bool, Option, none, some, List, if◌then◌else◌, fun_ext, Bool-cases, inl, inr,
}
use ratelimiter_redis.Base.GoMap.{make, assign, delete}
use ratelimiter_redis.Http.{Request, Handler}
use ratelimiter_redis.Access.KeySet.{KeySet, has, insert_all}

pub record Whitelist : Type 0 where
  pub keys : KeySet
  pub key_func : Request → String

pub new_whitelist : Option (Request → String) → List String → Whitelist
new_whitelist none ks = record { keys = insert_all ks make; key_func = λ r. r.remote_addr }
new_whitelist (some f) ks = record { keys = insert_all ks make; key_func = f }

pub contains : Whitelist → Request → Bool
contains w r = has w.keys (w.key_func r)

pub add : String → Whitelist → Whitelist
add key w = record w { keys = assign w.keys key tt }

pub remove : String → Whitelist → Whitelist
remove key w = record w { keys = delete w.keys key }

-- WithWhitelist; `none` is a nil whitelist.
pub with_whitelist : {S : Type 0} → Option Whitelist → Handler S → Handler S
unfolding contains
with_whitelist none next r s = next r s
with_whitelist (some w) next r s = if contains w r then next r s else next r s

-- Whatever the whitelist, the handler that `WithWhitelist` returns is the one that it wraps: a listed
-- key is exempt from nothing, and one that is not listed is limited by nothing that the wrapped handler
-- does not do itself.
pub whitelist_is_transparent :
    {S : Type 0} (w : Option Whitelist) (next : Handler S) → with_whitelist w next ≡ next
unfolding with_whitelist
whitelist_is_transparent none next = refl
whitelist_is_transparent (some w) next =
    fun_ext λ r. fun_ext λ s. elim (Bool-cases (contains w r)) [ inl e ↦ rw e | inr e ↦ rw e ]
