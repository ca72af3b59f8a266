-- ===== src/RetryAfter/Client.antt =====
-- What the client of `RetryAfterMiddleware` reads.
use ratelimiter_redis.Base.{
  String, ◌≡◌, refl, false, Option, List, [], ◌∷◌, ◌==◌, if◌then◌else◌, Bool-cases, inl, inr,
}
use ratelimiter_redis.Base.Int.{ℤ}
use ratelimiter_redis.Base.Clock.{Duration}
use ratelimiter_redis.Base.Text.{itoa, canonical}
use ratelimiter_redis.Http.{
  Call, set_header, add_header, del_header, write_header, write, Request, Handler, status,
  sent_header, relay, IsOrderly,
}
use ratelimiter_redis.RetryAfter.{
  RetryAfterCalculator, retry_seconds, retry_after_writer, retry_after_middleware,
}

abbrev relayed : ℤ → List Call → List Call
relayed secs calls = (relay (retry_after_writer secs) false calls).1

status-relayed :
    (secs : ℤ) (calls : List Call) → IsOrderly calls → status (relayed secs calls) ≡ status calls
unfolding relay
status-relayed secs [] h = refl
status-relayed secs (write_header c ∷ cs) h = elim (Bool-cases (c == 429)) [
  | inl e ↦ rw (e, h.0) refl
  | inr e ↦ rw (e, h.0) refl
]
status-relayed secs (write b ∷ cs) h = refl
status-relayed secs (set_header k v ∷ cs) h = status-relayed secs cs h
status-relayed secs (add_header k v ∷ cs) h = status-relayed secs cs h
status-relayed secs (del_header k ∷ cs) h = status-relayed secs cs h

sent_header-relayed :
    (secs : ℤ) (calls : List Call) (vs : List String)
    → IsOrderly calls
    → sent_header "Retry-After" vs (relayed secs calls)
      ≡ (if status calls == 429 then itoa secs ∷ [] else sent_header "Retry-After" vs calls)
unfolding relay sent_header canonical
sent_header-relayed secs [] vs h = refl
sent_header-relayed secs (write_header c ∷ cs) vs h = elim (Bool-cases (c == 429)) [
  | inl e ↦ rw (e, h.0, e) refl
  | inr e ↦ rw (e, h.0, e) refl
]
sent_header-relayed secs (write b ∷ cs) vs h = refl
sent_header-relayed secs (set_header k v ∷ cs) vs h = sent_header-relayed secs cs _ h
sent_header-relayed secs (add_header k v ∷ cs) vs h = sent_header-relayed secs cs _ h
sent_header-relayed secs (del_header k ∷ cs) vs h = sent_header-relayed secs cs _ h

-- Where the handler below is orderly, the client reads its status; a Retry-After with the calculated
-- seconds, in place of any the handler set, exactly if that is 429, and else the handler's own.
pub retry_after_on_429 :
    {S : Type 0} (next : Handler S) (calc : Option RetryAfterCalculator) (window : Duration)
    (r : Request) (s : S)
    → IsOrderly (next r s).0
    → let (calls, after) = retry_after_middleware next calc window r s in
      (status calls ≡ status (next r s).0)
      × (sent_header "Retry-After" [] calls ≡ (
          if status (next r s).0 == 429
          then itoa (retry_seconds calc r.remote_addr window) ∷ []
          else sent_header "Retry-After" [] (next r s).0))
      × (after ≡ (next r s).1)
unfolding retry_after_middleware
retry_after_on_429 next calc window r s h =
    let secs = retry_seconds calc r.remote_addr window in
    (status-relayed secs (next r s).0 h, sent_header-relayed secs (next r s).0 [] h, refl)
