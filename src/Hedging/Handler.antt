-- ===== src/Hedging/Handler.antt =====
-- request_hedging.go: the handler of `WithRequestHedging`, with its attempts on their writers and its loop.
-- What the handler below does in each attempt is an argument, the calls that it makes there.
use mathlib.Core.List.{◌++◌}
use ratelimiter_redis.Base.{ℕ, Bool, true, false, List, [], ◌∷◌, ltb, ◌==◌, if◌then◌else◌}
use ratelimiter_redis.Base.Int.{pos_part}
use ratelimiter_redis.Http.{Call, Request}
use ratelimiter_redis.Hedging.{
  HedgeOption, hedge_config, Writers, new_writers, attempt_call, Launching, start, attempt_ends,
  receives_done, receives_timer, loop_step,
}

-- The goroutines of one request: of each attempt the calls that are left and whether it has sent its
-- message; the calls that all of them have made in `log`, those made before the handler returned in
-- `in_time`, and what of these reached the client in `out`.
pub record Attempts : Type 0 where
  pub loop : Launching
  pub left : ℕ → List Call
  pub ended : ℕ → Bool
  pub writers : Writers
  pub log : List (ℕ × Call)
  pub in_time : List (ℕ × Call)
  pub out : List Call

abbrev pub begin : ℕ → (ℕ → List Call) → Attempts
begin max_hedges calls = record {
  loop = start max_hedges;
  left = calls;
  ended = λ i. false;
  writers = new_writers;
  log = [];
  in_time = [];
  out = [];
}

-- Attempt `i` goes on, or the handler receives a message or the timer's.
pub data HandlerEvent : Type 0 where
  serves : ℕ → HandlerEvent
  takes_done takes_timer : HandlerEvent

-- An attempt's next call, or the message `doneCh <- struct{}{}` after its last. The server has finished
-- the response when the handler has returned; a call on its writer is lost from then on.
abbrev pub serve : ℕ → List Call → Attempts → Attempts
serve i [] a = if a.ended i then a else record a {
  loop = loop_step attempt_ends a.loop;
  ended = λ j. if j == i then true else a.ended j;
}
serve i (c ∷ cs) a =
    let (out, ws) = attempt_call i c a.writers in
    record a {
      left = λ j. if j == i then cs else a.left j;
      writers = ws;
      log = a.log ++ (i, c) ∷ [];
      in_time = if a.loop.returned then a.in_time else a.in_time ++ (i, c) ∷ [];
      out = if a.loop.returned then a.out else a.out ++ out;
    }

-- An attempt goes on only once it is launched.
unfoldable pub handler_step : HandlerEvent → Attempts → Attempts
handler_step (serves i) a = if ltb i a.loop.launched then serve i (a.left i) a else a
handler_step takes_done a = record a { loop = loop_step receives_done a.loop }
handler_step takes_timer a = record a { loop = loop_step receives_timer a.loop }

unfoldable pub handler_run : List HandlerEvent → Attempts → Attempts
unfolding handler_step
handler_run [] a = a
handler_run (e ∷ es) a = handler_run es (handler_step e a)

-- What reaches the client of `WithRequestHedging` under a schedule; `plain` is what the handler below does
-- where the request is not hedged.
unfoldable pub with_request_hedging :
    List HedgeOption → (ℕ → List Call) → List Call → List HandlerEvent → Request → List Call
unfolding handler_run
with_request_hedging opts calls plain es r =
    let cfg = hedge_config opts in
    if cfg.should_hedge r
    then (handler_run es (begin (pos_part cfg.max_hedges) calls)).out
    else plain
