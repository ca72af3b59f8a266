-- ===== src/Hedging.antt =====
-- request_hedging.go: the attempts' writers on the shared one, and the loop that launches the attempts.
pub mod Race
pub mod Launches
pub mod Handler
pub mod Progress
pub mod Returning
mod Tests
use mathlib.Core.List.{◌++◌ as ◌+++◌}
use ratelimiter_redis.Base.{
  ℕ, zero, suc, ◌+◌, ◌-◌, String, Bool, true, false, not, ◌&&◌, Option, none, some, List, [], ◌∷◌,
  ◌==◌, ltb, if◌then◌else◌,
}
use ratelimiter_redis.Base.Int.{ℤ, pos, ltb_ℤ}
use ratelimiter_redis.Base.Clock.{Duration}
use ratelimiter_redis.Http.{Call, set_header, add_header, del_header, write_header, write, Request}

pub record HedgeConfig : Type 0 where
  pub delay : Duration
  pub max_hedges : ℤ
  pub should_hedge : Request → Bool

abbrev pub HedgeOption : Type 0
HedgeOption = HedgeConfig → HedgeConfig

abbrev pub with_hedge_delay : Duration → HedgeOption
with_hedge_delay d c = record c { delay = d }

abbrev pub with_max_hedges : ℤ → HedgeOption
with_max_hedges n c = if ltb_ℤ (pos 0) n then record c { max_hedges = n } else c

abbrev pub with_hedge_predicate : (Request → Bool) → HedgeOption
with_hedge_predicate fn c = record c { should_hedge = fn }

abbrev apply_options : List HedgeOption → HedgeConfig → HedgeConfig
apply_options [] c = c
apply_options (o ∷ opts) c = apply_options opts (o c)

-- The configuration that `WithRequestHedging` works with; the delay is 20 milliseconds.
abbrev pub hedge_config : List HedgeOption → HedgeConfig
hedge_config opts =
    apply_options opts
      (record { delay = pos 20000000; max_hedges = pos 1; should_hedge = λ r. true })

-- `written` of the shared writer, and `code` of the writer of each attempt.
pub record Writers : Type 0 where
  pub claimed : Bool
  pub codes : ℕ → ℕ

abbrev pub new_writers : Writers
new_writers = record { claimed = false; codes = λ i. 0 }

-- claim
abbrev pub claim : Writers → Bool × Writers
claim ws = (not ws.claimed, record ws { claimed = true })

-- `s.shared.ResponseWriter.WriteHeader(s.code)`, if the code is set, and the bytes.
abbrev pub winning : ℕ → String → List Call
winning code b = if code == 0 then write b ∷ [] else write_header code ∷ write b ∷ []

-- A call on the writer of attempt `i`; the header map is the shared one.
abbrev pub attempt_call : ℕ → Call → Writers → List Call × Writers
attempt_call i (write_header c) ws =
    ([], record ws { codes = λ j. if j == i then c else ws.codes j })
attempt_call i (write b) ws =
    let (wins, ws') = claim ws in ((if wins then winning (ws.codes i) b else []), ws')
attempt_call i c ws = (c ∷ [], ws)

-- The calls of the attempts, in the order in which they happen.
unfoldable pub race : List (ℕ × Call) → Writers → List Call × Writers
race [] ws = ([], ws)
race ((i, c) ∷ rest) ws =
    let (out, ws') = attempt_call i c ws in let (outs, last) = race rest ws' in (out +++ outs, last)

-- The goroutine of the handler: attempts launched, rounds of the loop left, whether the timer is yet to
-- fire, the messages in `doneCh`, and whether it has returned.
pub record Launching : Type 0 where
  pub launched : ℕ
  pub rounds : ℕ
  pub timer : Bool
  pub done : ℕ
  pub returned : Bool

-- `go serve(r)` and `time.NewTimer(cfg.delay)`
abbrev pub start : ℕ → Launching
start max_hedges = record {
  launched = 1;
  rounds = max_hedges;
  timer = true;
  done = 0;
  returned = false;
}

-- An attempt ends; the handler receives from `doneCh`, or from the timer.
pub data LoopEvent : Type 0 where
  attempt_ends receives_done receives_timer : LoopEvent

-- Steps that cannot happen change nothing.
unfoldable pub loop_step : LoopEvent → Launching → Launching
loop_step attempt_ends l = record l { done = l.done + 1 }
loop_step receives_done l =
    if not l.returned && ltb 0 l.done then record l { done = l.done - 1; returned = true } else l
loop_step receives_timer l =
    if not l.returned && l.timer && ltb 0 l.rounds
    then record l { launched = l.launched + 1; rounds = l.rounds - 1; timer = false }
    else l

unfoldable pub loop_run : List LoopEvent → Launching → Launching
unfolding loop_step
loop_run [] l = l
loop_run (e ∷ es) l = loop_run es (loop_step e l)
