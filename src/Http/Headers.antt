-- ===== src/Http/Headers.antt =====
-- Reading a header that was set.
use ratelimiter_redis.Base.{
  ap, String, ◌≡◌, refl, List, [], ◌∷◌, if◌then◌else◌, Bool-cases, inl, inr, str_eq, eq_iff,
}
use ratelimiter_redis.Base.Text.{canonical}
use ratelimiter_redis.Http.{
  set_header, Call, Header, header_get, header_set, update, sent_header, first_value, values,
}

get-update : (k v : String) (h : Header) → first_value (values k (update k (λ vs. v ∷ []) h)) ≡ v
get-update k v [] = rw ((eq_iff k k).1 refl) refl
get-update k v ((j, vs) ∷ h) = elim (Bool-cases (str_eq j k)) [
  | inl same ↦ rw (same, same) refl
  | inr other ↦ rw (other, other) (get-update k v h)
]

pub get-header_set : (k v : String) (h : Header) → header_get (header_set k v h) k ≡ v
unfolding header_get header_set
get-header_set k v h = get-update (canonical k) v h

pub sent-set_header :
    (k v : String) (vs : List String) (calls : List Call)
    → sent_header k vs (set_header k v ∷ calls) ≡ sent_header k (v ∷ []) calls
unfolding sent_header
sent-set_header k v vs calls =
    ap (λ b. sent_header k (if b then v ∷ [] else vs) calls)
      ((eq_iff (canonical k) (canonical k)).1 refl)
