-- ===== src/ResponseCache/Replay.antt =====
-- A cached response is the one that its first request got.
use ratelimiter_redis.Base.{
  String, ◌≡◌, refl, false, Option, none, some, List, [], ◌∷◌, ◌==◌, arith, All, Bool-cases, inl,
  inr, str_eq, eq_iff,
}
use ratelimiter_redis.Base.Int.{◌+ℤ◌, ◌≤ℤ◌}
use ratelimiter_redis.Base.Clock.{Time, Moment, after}
use ratelimiter_redis.Http.{Call, Header, Request, Handler, status, written}
use ratelimiter_redis.ResponseCache.{
  serve_get, CacheEntry, ResponseCache, get, set, add_values, add_headers, replay, forward,
  entry_of, cache_handler,
}
use ratelimiter_redis.ResponseCache.Recorder.{ResponseRecorder, recorded, result_header}

status-add_values :
    (k : String) (vs : List String) (rest : List Call) → status (add_values k vs rest) ≡ status rest
status-add_values k [] rest = refl
status-add_values k (v ∷ vs) rest = status-add_values k vs rest

status-add_headers : (h : Header) (rest : List Call) → status (add_headers h rest) ≡ status rest
status-add_headers [] rest = refl
status-add_headers ((k, vs) ∷ h) rest =
    rw (status-add_values k vs (add_headers h rest)) (status-add_headers h rest)

written-add_values :
    (k : String) (vs : List String) (rest : List Call)
    → written (add_values k vs rest) ≡ written rest
written-add_values k [] rest = refl
written-add_values k (v ∷ vs) rest = written-add_values k vs rest

written-add_headers : (h : Header) (rest : List Call) → written (add_headers h rest) ≡ written rest
written-add_headers [] rest = refl
written-add_headers ((k, vs) ∷ h) rest =
    rw (written-add_values k vs (add_headers h rest)) (written-add_headers h rest)

status-replay : (rec : ResponseRecorder) → status (replay (entry_of rec)) ≡ status (forward rec)
status-replay rec =
    rw (status-add_headers (result_header rec), status-add_headers rec.header_map) refl

written-replay : (rec : ResponseRecorder) → written (replay (entry_of rec)) ≡ written (forward rec)
written-replay rec =
    rw (written-add_headers (result_header rec), written-add_headers rec.header_map) refl

not_after : (now end : Time) → now ≤ℤ end → after now end ≡ false
not_after now end h = ground arith

-- A request with the moments of the cache's readings of the clock.
pub record Visit : Type 0 where
  pub at : Moment
  pub request : Request

module _ {S : Type 0} (detect : String → String) (key_func : Request → String)
    (next : Handler S) where
  abbrev pub serve : Visit → ResponseCache × S → List Call × (ResponseCache × S)
  serve v st = cache_handler detect v.at key_func next v.request st

  unfoldable pub serve_all : List Visit → ResponseCache × S → ResponseCache × S
  serve_all [] st = st
  serve_all (v ∷ vs) st = serve_all vs (serve v st).1

  -- No look into the cache after a time.
  abbrev pub Until : Time → Visit → Type 0
  Until end v = v.at.first ≤ℤ end

  hit :
      (v : Visit) (c : ResponseCache) (s : S) (e : CacheEntry)
      → v.request.method ≡ "GET"
      → c.entries (key_func v.request) ≡ some e
      → Until e.expires_at v
      → serve v (c, s) ≡ (replay e, (c, s))
  unfolding cache_handler
  hit v c s e is_get found early =
      rw ((eq_iff v.request.method "GET").1 is_get, found, not_after v.at.first e.expires_at early)
        refl

  serve_get_keeps :
      (o : Option CacheEntry) (now : Time) (key k : String) (r : Request) (c : ResponseCache)
      (s : S) (e : CacheEntry)
      → str_eq key k ≡ false
      → c.entries k ≡ some e
      → (serve_get detect now key next o r (c, s)).1.0.entries k ≡ some e
  unfolding set
  serve_get_keeps (some x) now key k r c s e other found = found
  serve_get_keeps none now key k r c s e other found =
      elim (Bool-cases ((recorded detect (next r s).0).code == 200)) [
        | inl h ↦ rw (h, other) found
        | inr h ↦ rw h found
      ]

  keeps :
      (v : Visit) (c : ResponseCache) (s : S) (k : String) (e : CacheEntry)
      → c.entries k ≡ some e
      → Until e.expires_at v
      → (serve v (c, s)).1.0.entries k ≡ some e
  unfolding cache_handler
  keeps v c s k e found early =
      let key = key_func v.request in
      elim (Bool-cases (str_eq v.request.method "GET")) [
        | inr h ↦ rw h found
        | inl h ↦ rw h (elim (Bool-cases (str_eq key k)) [
          | inl same ↦
              rw ((eq_iff key k).0 same, found, not_after v.at.first e.expires_at early) found
          | inr other ↦
              serve_get_keeps (get v.at.first key c) v.at.second key k v.request c s e other found
        ])
      ]

  keeps_along :
      (vs : List Visit) (c : ResponseCache) (s : S) (k : String) (e : CacheEntry)
      → c.entries k ≡ some e
      → All (Until e.expires_at) vs
      → (serve_all vs (c, s)).0.entries k ≡ some e
  unfolding serve_all
  keeps_along [] c s k e found early = found
  keeps_along (v ∷ vs) c s k e found early =
      let (c', s') = (serve v (c, s)).1 in
      keeps_along vs c' s' k e (keeps v c s k e found early.0) early.1

  -- The entry that a miss stores.
  abbrev pub stored : Visit → ResponseCache → S → CacheEntry
  stored v c s = record (entry_of (recorded detect (next v.request s).0)) {
    expires_at = v.at.second +ℤ c.ttl;
  }

  miss :
      (v : Visit) (c : ResponseCache) (s : S)
      → v.request.method ≡ "GET"
      → get v.at.first (key_func v.request) c ≡ none
      → (recorded detect (next v.request s).0).code ≡ 200
      → ((serve v (c, s)).0 ≡ forward (recorded detect (next v.request s).0))
        × ((serve v (c, s)).1.0.entries (key_func v.request) ≡ some (stored v c s))
  unfolding cache_handler set
  miss v c s is_get fresh good =
      rw
        (
          (eq_iff v.request.method "GET").1 is_get,
          fresh,
          good,
          (eq_iff (key_func v.request) (key_func v.request)).1 refl,
        )
        (refl, refl)

  -- After a GET request that missed the cache and whose handler answered 200, every GET request with its
  -- key that looks into the cache until the entry expires is answered without the handler, with the
  -- status and the body that the first one got, whatever requests were served in between, by then.
  pub repeats_replay :
      (v v' : Visit) (vs : List Visit) (c : ResponseCache) (s : S)
      → v.request.method ≡ "GET"
      → get v.at.first (key_func v.request) c ≡ none
      → (recorded detect (next v.request s).0).code ≡ 200
      → All (Until (v.at.second +ℤ c.ttl)) vs
      → v'.request.method ≡ "GET"
      → key_func v'.request ≡ key_func v.request
      → Until (v.at.second +ℤ c.ttl) v'
      → let (calls, st) = serve v (c, s) in
        let (calls', end) = serve v' (serve_all vs st) in
        (status calls' ≡ status calls) × (written calls' ≡ written calls) × (end ≡ serve_all vs st)
  repeats_replay v v' vs c s is_get fresh good within is_get' same early =
      let first = miss v c s is_get fresh good in
      let (c', s') = (serve v (c, s)).1 in
      let rec = recorded detect (next v.request s).0 in
      let found = keeps_along vs c' s' (key_func v.request) (stored v c s) first.1 within in
      let (c'', s'') = serve_all vs (c', s') in
      let again = hit v' c'' s'' (stored v c s) is_get' (rw same found) early in
      rw (again, first.0) (status-replay rec, written-replay rec, refl)
