-- ===== src/RateLimiter/Admission.antt =====
-- The middleware as a filter on the stream of requests.
use Prim.Native.String.{String}
use ratelimiter_redis.Base.{
  ◌≡◌, refl, Bool, true, false, Option, none, Result, ok, err, List, [], ◌∷◌, if◌then◌else◌,
  Bool-cases, inl, inr,
}
use ratelimiter_redis.Base.Text.{itoa}
use ratelimiter_redis.Http.{Request, Handler, status, sent_header}
use ratelimiter_redis.RateLimiter.{
  Decision, Counter, Options, default_limit_exceeded_handler, or_default, respond, format_seconds,
  new,
}

-- The state after successive requests.
unfoldable pub serve_all : {S : Type 0} → Handler S → List Request → S → S
serve_all h [] s = s
serve_all h (r ∷ rs) s = serve_all h rs (h r s).1

abbrev pub admits : Result Decision → Bool
admits (err e) = true
admits (ok d) = d.allowed

-- What the strategy alone makes of the requests: its last state, and those of them that it allows or
-- fails on.
unfoldable pub admitted :
    {C : Type 0} → (Request → String) → Counter C → List Request → C → List Request × C
admitted key limiter [] c = ([], c)
admitted key limiter (r ∷ rs) c =
    let (result, c') = limiter (key r) c in
    let (rest, last) = admitted key limiter rs c' in
    ((if admits result then r ∷ rest else rest), last)

respond_state :
    {S : Type 0} (next : Handler S) (result : Result Decision) (r : Request) (s : S)
    → (respond default_limit_exceeded_handler next result r s).1
      ≡ (if admits result then (next r s).1 else s)
respond_state next (err e) r s = refl
respond_state next (ok d) r s = elim (Bool-cases d.allowed) [ inl e ↦ rw e | inr e ↦ rw e ]

module _ {C S : Type 0} (default_key : Request → String) (limiter : Counter C)
    (next : Handler S) where
  abbrev pub options : Option (Request → String) → Options C S
  options key_func = record {
    limiter = limiter;
    key_func = key_func;
    limit_exceeded_handler = none;
  }

  new_state :
      (key_func : Option (Request → String)) (r : Request) (c : C) (s : S)
      → let result = limiter (or_default default_key key_func r) c in
        (new default_key (options key_func) next r (c, s)).1
        ≡ (result.1, (if admits result.0 then (next r s).1 else s))
  unfolding new
  new_state key_func r c s = rw respond_state

  -- Behind `New` with the default handler for rejected requests, the handler serves, in their order,
  -- exactly the requests that the strategy allows or fails on; and the strategy is asked once about each
  -- request, the rejected ones too, so that its state is what the keys of all of them make of it.
  pub new_filters :
      (key_func : Option (Request → String)) (rs : List Request) (c : C) (s : S)
      → let (passed, c') = admitted (or_default default_key key_func) limiter rs c in
        serve_all (new default_key (options key_func) next) rs (c, s)
        ≡ (c', serve_all next passed s)
  unfolding serve_all admitted
  new_filters key_func [] c s = refl
  new_filters key_func (r ∷ rs) c s =
      let result = limiter (or_default default_key key_func r) c in
      rw new_state (elim (Bool-cases (admits result.0)) [
        | inl e ↦ rw e (rw (new_filters key_func rs result.1 (next r s).1))
        | inr e ↦ rw e (rw (new_filters key_func rs result.1 s))
      ])

  -- A rejected request reaches the strategy alone: its client reads 429 with the strategy's remaining
  -- count and reset time in the headers.
  pub rejected_response :
      (key_func : Option (Request → String)) (r : Request) (c c' : C) (s : S) (d : Decision)
      → limiter (or_default default_key key_func r) c ≡ (ok d, c')
      → d.allowed ≡ false
      → let (calls, after) = new default_key (options key_func) next r (c, s) in
        (status calls ≡ 429)
        × (sent_header "X-RateLimit-Remaining" [] calls ≡ itoa d.remaining ∷ [])
        × (sent_header "X-RateLimit-Reset" [] calls ≡ format_seconds d.reset ∷ [])
        × (after ≡ (c', s))
  unfolding new sent_header
  rejected_response key_func r c c' s d e no_more = rw (e, no_more) (refl, refl, refl, refl)

  -- A request on which the strategy fails is served as if there were no limit.
  pub fails_open :
      (key_func : Option (Request → String)) (r : Request) (c c' : C) (s : S) (e : String)
      → limiter (or_default default_key key_func r) c ≡ (err e, c')
      → new default_key (options key_func) next r (c, s) ≡ ((next r s).0, (c', (next r s).1))
  unfolding new
  fails_open key_func r c c' s e failed = rw failed
