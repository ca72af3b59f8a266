-- ===== src/Access/KeySet.antt =====
-- Sets of strings, as the filters build them.
use ratelimiter_redis.Base.{
  String, ◌≡◌, refl, Bool, true, false, ◌||◌, Option, none, some, List, [], ◌∷◌, arith, str_eq,
}
use ratelimiter_redis.Base.GoMap.{GoMap, assign}

abbrev pub KeySet : Type 0
KeySet = GoMap (Unit {0})

abbrev pub is_some : Option (Unit {0}) → Bool
is_some none = false
is_some (some u) = true

-- _, ok := keys[key]
abbrev pub has : KeySet → String → Bool
has keys key = is_some (keys key)

-- for _, k := range ks { keys[k] = struct{}{} }
pub insert_all : List String → KeySet → KeySet
insert_all [] keys = keys
insert_all (k ∷ ks) keys = insert_all ks (assign keys k tt)

abbrev pub any_eq : String → List String → Bool
any_eq key [] = false
any_eq key (k ∷ ks) = str_eq k key || any_eq key ks

pub has-insert_all :
    (ks : List String) (keys : KeySet) (key : String)
    → has (insert_all ks keys) key ≡ (any_eq key ks || has keys key)
unfolding insert_all
has-insert_all [] keys key = refl
has-insert_all (k ∷ ks) keys key = ground (arith, has-insert_all ks (assign keys k tt) key)
