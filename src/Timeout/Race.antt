-- ===== src/Timeout/Race.antt =====
-- What the client reads where the time is up.
use mathlib.Core.List.{◌++◌ as ◌+++◌}
use ratelimiter_redis.Base.{
  ℕ, ◌≡◌, refl, sym, ap, ◌∙◌, Bool, true, some, List, [], ◌∷◌, take, drop, take-drop, if◌then◌else◌,
  Bool-cases, inl, inr, arith,
}
use ratelimiter_redis.Base.Int.{pos, leb_ℤ}
use ratelimiter_redis.Base.Clock.{Duration}
use ratelimiter_redis.Http.{
  Call, set_header, add_header, del_header, write_header, write, Request, Handler, status,
  is_informational,
}
use ratelimiter_redis.Tracing.Latency.{commits}
use ratelimiter_redis.Timeout.{RequestTimeoutOption, timeout_config, with_request_timeout}

status-commits : (xs ys : List Call) → commits xs ≡ true → status (xs +++ ys) ≡ status xs
status-commits [] ys h = ground (arith, h)
status-commits (write_header c ∷ cs) ys h = elim (Bool-cases (is_informational c)) [
  | inl e ↦ rw e (status-commits cs ys (ap (λ b. if b then commits cs else true) (sym e) ∙ h))
  | inr e ↦ rw e refl
]
status-commits (write b ∷ cs) ys h = refl
status-commits (set_header j v ∷ cs) ys h = status-commits cs ys h
status-commits (add_header j v ∷ cs) ys h = status-commits cs ys h
status-commits (del_header j ∷ cs) ys h = status-commits cs ys h

-- Where the handler has sent its status when the time is up, the client reads that status whatever the
-- handler for exceeded requests does, and however the two interleave from then on.
pub begun_answer_stands :
    {S T : Type 0} (n : ℕ) (sched : List Bool) (d : Duration) (opts : List (RequestTimeoutOption T))
    (next : Handler S) (r : Request) (s : S) (t : T)
    → commits (take n (next r s).0) ≡ true
    → status (with_request_timeout (some (n, sched)) d opts next r (s, t)).0 ≡ status (next r s).0
unfolding with_request_timeout
begun_answer_stands n sched d opts next r s t h =
    let calls = (next r s).0 in
    let whole = ap status (take-drop n calls) in
    elim (Bool-cases (leb_ℤ (timeout_config d opts).timeout (pos 0))) [
      | inl e ↦ rw e refl
      | inr e ↦ rw e (
          status-commits (take n calls) _ h
          ∙ sym (status-commits (take n calls) (drop n calls) h)
          ∙ whole)
    ]
