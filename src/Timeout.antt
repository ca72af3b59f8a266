-- ===== src/Timeout.antt =====
-- request_timeout.go: the handler in its goroutine, and the handler for exceeded requests, on one writer.
-- What they do to it is one sequence of calls; where the time is up, a schedule says whose call is next.
-- What the goroutine does after the middleware has returned does not reach the client.
pub mod Race
mod Tests
use mathlib.Core.List.{◌++◌ as ◌+++◌}
use ratelimiter_redis.Base.{
  ℕ, Bool, true, false, Option, none, some, List, [], ◌∷◌, take, drop, if◌then◌else◌,
}
use ratelimiter_redis.Base.Int.{ℤ, pos, leb_ℤ}
use ratelimiter_redis.Base.Clock.{Duration}
use ratelimiter_redis.Http.{Call, set_header, write_header, write, Request, Handler}

abbrev pub default_timeout_exceeded_handler : {S : Type 0} → Handler S
default_timeout_exceeded_handler r s = (
  set_header "Content-Type" "text/plain; charset=utf-8"
      ∷ write_header 504
      ∷ write "504 Gateway Timeout"
      ∷ [],
  s,
)

pub record RequestTimeoutConfig (S : Type 0) : Type 0 where
  pub timeout : Duration
  pub exceeded_handler : Handler S

abbrev pub RequestTimeoutOption : Type 0 → Type 0
RequestTimeoutOption S = RequestTimeoutConfig S → RequestTimeoutConfig S

-- It ignores nil.
abbrev pub with_timeout_handler : {S : Type 0} → Option (Handler S) → RequestTimeoutOption S
with_timeout_handler none c = c
with_timeout_handler (some h) c = record c { exceeded_handler = h }

abbrev apply_options :
    {S : Type 0} → List (RequestTimeoutOption S) → RequestTimeoutConfig S → RequestTimeoutConfig S
apply_options [] c = c
apply_options (o ∷ opts) c = apply_options opts (o c)

abbrev pub timeout_config :
    {S : Type 0} → Duration → List (RequestTimeoutOption S) → RequestTimeoutConfig S
timeout_config d opts =
    apply_options opts (record { timeout = d; exceeded_handler = default_timeout_exceeded_handler })

-- The calls of the goroutine and of the other handler, until this has made all of its own.
abbrev pub weave : List Bool → List Call → List Call → List Call
weave sched late [] = []
weave [] late (c ∷ cs) = c ∷ cs
weave (true ∷ sched) [] (c ∷ cs) = weave sched [] (c ∷ cs)
weave (true ∷ sched) (l ∷ late) (c ∷ cs) = l ∷ weave sched late (c ∷ cs)
weave (false ∷ sched) late (c ∷ cs) = c ∷ weave sched late cs

-- When the time is up, how many calls the goroutine has made, and the schedule from then on; `none` where
-- the handler is done before.
abbrev pub Course : Type 0
Course = Option (ℕ × List Bool)

abbrev course_calls : Course → List Call → List Call → List Call
course_calls none calls exceeded = calls
course_calls (some (n, sched)) calls exceeded = take n calls +++ weave sched (drop n calls) exceeded

abbrev course_state : {S : Type 0} → Course → S → S → S
course_state none done exceeded = done
course_state (some c) done exceeded = exceeded

-- The handler that `WithRequestTimeout` returns. The handlers' states are apart: `next` has its own.
unfoldable pub with_request_timeout :
    {S T : Type 0} → Course → Duration → List (RequestTimeoutOption T) → Handler S → Handler (S × T)
with_request_timeout course d opts next r (s, t) =
    let cfg = timeout_config d opts in
    let (calls, s') = next r s in
    let (exceeded, t') = cfg.exceeded_handler r t in
    if leb_ℤ cfg.timeout (pos 0)
    then (calls, (s', t))
    else (course_calls course calls exceeded, (s', course_state course t t'))
