-- ===== src/Logger/Entry.antt =====
-- What is logged of a request that passes `New`.
use ratelimiter_redis.Base.{
  ◌∙◌, ℕ, String, ◌≡◌, refl, ap, false, not, Option, Result, ok, err, List, [], ◌∷◌, ◌==◌,
  Bool-cases, inl, inr, str_eq,
}
use ratelimiter_redis.Base.Int.{ℤ, pos, InInt64}
use ratelimiter_redis.Base.Clock.{Duration}
use ratelimiter_redis.Base.Scan.{scan_int-itoa}
use ratelimiter_redis.Base.Text.{itoa, canonical}
use ratelimiter_redis.Http.{
  Call, set_header, add_header, del_header, write_header, write, Request, Handler, relay,
  header_after,
}
use ratelimiter_redis.RateLimiter.{Decision, Counter, new, or_default, respond}
use ratelimiter_redis.RateLimiter.Admission.{options, admits}
use ratelimiter_redis.RateLimiter.{default_limit_exceeded_handler}
use ratelimiter_redis.Http.{first_value}
use ratelimiter_redis.Base.Trim.{not_nil}
use ratelimiter_redis.Base.Scan.{itoa_not_nil}
use ratelimiter_redis.Logger.{
  StandardLogger, default_log_func, LogEntry, logger_writer, remaining_of, with_request_logger,
}

abbrev remaining_header : String
remaining_header = "X-RateLimit-Remaining"

-- The calls leave the header of that name alone, and answer no 429.
abbrev pub Quiet : List Call → Type 0
Quiet [] = Unit {0}
Quiet (set_header k v ∷ cs) = (str_eq (canonical k) (canonical remaining_header) ≡ false) × Quiet cs
Quiet (add_header k v ∷ cs) = (str_eq (canonical k) (canonical remaining_header) ≡ false) × Quiet cs
Quiet (del_header k ∷ cs) = (str_eq (canonical k) (canonical remaining_header) ≡ false) × Quiet cs
Quiet (write_header c ∷ cs) = ((c == 429) ≡ false) × Quiet cs
Quiet (write b ∷ cs) = Quiet cs

header-Quiet :
    (cs : List Call) (vs : List String) → Quiet cs → header_after remaining_header vs cs ≡ vs
unfolding header_after
header-Quiet [] vs q = refl
header-Quiet (set_header k v ∷ cs) vs (h, q) = rw h (header-Quiet cs vs q)
header-Quiet (add_header k v ∷ cs) vs (h, q) = rw h (header-Quiet cs vs q)
header-Quiet (del_header k ∷ cs) vs (h, q) = rw h (header-Quiet cs vs q)
header-Quiet (write_header c ∷ cs) vs (h, q) = header-Quiet cs vs q
header-Quiet (write b ∷ cs) vs q = header-Quiet cs vs q

-- The writer passes every call on.
passes : (code : ℕ) (cs : List Call) → (relay logger_writer code cs).1 ≡ cs
unfolding relay
passes code [] = refl
passes code (set_header k v ∷ cs) = ap (◌∷◌ (set_header k v)) (passes code cs)
passes code (add_header k v ∷ cs) = ap (◌∷◌ (add_header k v)) (passes code cs)
passes code (del_header k ∷ cs) = ap (◌∷◌ (del_header k)) (passes code cs)
passes code (write_header c ∷ cs) = ap (◌∷◌ (write_header c)) (passes c cs)
passes code (write b ∷ cs) = ap (◌∷◌ (write b)) (passes code cs)

code-Quiet :
    (code : ℕ) (cs : List Call)
    → (code == 429) ≡ false
    → Quiet cs
    → ((relay logger_writer code cs).0 == 429) ≡ false
unfolding relay
code-Quiet code [] h q = h
code-Quiet code (set_header k v ∷ cs) h (h', q) = code-Quiet code cs h q
code-Quiet code (add_header k v ∷ cs) h (h', q) = code-Quiet code cs h q
code-Quiet code (del_header k ∷ cs) h (h', q) = code-Quiet code cs h q
code-Quiet code (write_header c ∷ cs) h (h', q) = code-Quiet c cs h' q
code-Quiet code (write b ∷ cs) h q = code-Quiet code cs h q

-- What the strategy's answer says is left.
abbrev pub told : Result Decision → ℤ
told (ok d) = d.remaining
told (err e) = pos 0

remaining-itoa : (a : ℤ) → InInt64 a → remaining_of (itoa a) ≡ a
unfolding remaining_of
remaining-itoa a h = rw (not_nil (itoa a) (itoa_not_nil a h), scan_int-itoa a h) refl

remaining_nothing : remaining_of "" ≡ pos 0
unfolding remaining_of
remaining_nothing = refl

-- What the calls of the response to a strategy's answer are read as.
responded :
    {S : Type 0} (next : Handler S) (result : Result Decision) (r : Request) (s : S)
    → InInt64 (told result)
    → Quiet (next r s).0
    → let calls = (respond default_limit_exceeded_handler next result r s).0 in
      (not ((relay logger_writer 200 calls).0 == 429) ≡ admits result)
      × (remaining_of (first_value (header_after remaining_header [] calls)) ≡ told result)
unfolding relay header_after
responded next (err e) r s h q = (
  ap not (code-Quiet 200 (next r s).0 refl q),
  ap (λ vs. remaining_of (first_value vs)) (header-Quiet (next r s).0 [] q) ∙ remaining_nothing,
)
responded next (ok d) r s h q = elim (Bool-cases d.allowed) [
  | inl e ↦ rw e (
    ap not (code-Quiet 200 (next r s).0 refl q),
    ap (λ vs. remaining_of (first_value vs)) (header-Quiet (next r s).0 (itoa d.remaining ∷ []) q)
        ∙ remaining-itoa d.remaining h,
  )
  | inr e ↦ rw e (refl, remaining-itoa d.remaining h)
]

-- Around `New` with the default handler for rejected requests, the logger passes the response on, and logs
-- whether the strategy let the request through, and what it said is left: where that is an `int64`, and the
-- handler below leaves the header that carries it alone, and does not answer 429 itself. Of a request on
-- which the strategy fails it logs that it was allowed, with 0 left.
pub logger_tells :
    {C S : Type 0} (log : StandardLogger (C × S)) (default_key : Request → String)
    (latency : Duration) (limiter : Counter C) (key_func : Option (Request → String))
    (log_func : Option (LogEntry → C × S → C × S)) (next : Handler S) (r : Request) (c : C) (s : S)
    → let result = (limiter (or_default default_key key_func r) c).0 in
      InInt64 (told result)
      → Quiet (next r s).0
      → let limited = new default_key (options default_key limiter next key_func) next in
        let entry : LogEntry = record {
          key = or_default default_key key_func r;
          path = r.path;
          method = r.method;
          allowed = admits result;
          remaining = told result;
          latency = latency;
        } in
        with_request_logger log default_key latency limited key_func log_func r (c, s) ≡ (
          (limited r (c, s)).0,
          or_default (default_log_func log) log_func entry (limited r (c, s)).1,
        )
unfolding with_request_logger new
logger_tells log default_key latency limiter key_func log_func next r c s h q =
    let result = (limiter (or_default default_key key_func r) c).0 in
    let read = responded next result r s h q in
    let calls = (respond default_limit_exceeded_handler next result r s).0 in
    rw (passes 200 calls, read.0, read.1) refl
