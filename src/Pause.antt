-- ===== src/Pause.antt =====
-- request_pause.go: the controller, whose methods hold the mutex, and the requests that wait on it.
pub mod Resuming
mod Tests
use ratelimiter_redis.Http.{Pointer, null, target, Handler}
use ratelimiter_redis.Base.{
  ℕ, suc, ◌+◌, ◌≡◌, Bool, true, false, Option, none, some, List, [], ◌∷◌, ◌==◌, if◌then◌else◌,
}
use ratelimiter_redis.Base.Int.{ℤ, pos, leb_ℤ}
use ratelimiter_redis.Base.Clock.{Duration, seconds}

-- Channels are numbered as they are made; `closed` says which are closed.
pub record PauseController : Type 0 where
  pub paused : Bool
  pub resume : ℕ
  pub max_hold : Duration
  pub channels : ℕ
  pub closed : ℕ → Bool

abbrev pub new_pause_controller : Duration → PauseController
new_pause_controller max_hold = record {
  paused = false;
  resume = 0;
  max_hold = if leb_ℤ max_hold (pos 0) then seconds 5 else max_hold;
  channels = 1;
  closed = λ _. false;
}

unfoldable pub do_pause : PauseController → PauseController
do_pause p =
    if p.paused
    then p
    else record p { paused = true; resume = p.channels; channels = suc p.channels }

abbrev close_channel : ℕ → (ℕ → Bool) → ℕ → Bool
close_channel ch closed c = if c == ch then true else closed c

-- `none`: closing a channel that is closed already panics.
unfoldable pub do_resume : PauseController → Option PauseController
do_resume p =
    if p.paused
    then if p.closed p.resume
      then none
      else some (record p { paused = false; closed = close_channel p.resume p.closed })
    else some p

abbrev pub is_paused : PauseController → Bool
is_paused p = p.paused

-- The first part of `wait`, under the read lock: `none` where the request goes on at once, and
-- otherwise the channel and the time that it waits on.
unfoldable pub begin_wait : PauseController → Option (ℕ × Duration)
begin_wait p = if p.paused then some (p.resume, p.max_hold) else none

-- The second part, the `select`: a request that waits on channel `ch` goes on if the channel is closed,
-- or if it has waited for `hold`.
unfoldable pub may_go_on : PauseController → ℕ × Duration → Duration → Bool
may_go_on p (ch, hold) waited = if p.closed ch then true else leb_ℤ hold waited

-- WithRequestPause panics where the controller is nil; the handler that it returns runs `next` once its
-- `wait` is over.
abbrev pub with_request_pause : {S : Type 0} → Pointer → Handler S → Option (Handler S)
with_request_pause null next = none
with_request_pause target next = some next

pub data Op : Type 0 where
  pauses resumes : Op

unfoldable pub step : Op → PauseController → Option PauseController
step pauses p = some (do_pause p)
step resumes p = do_resume p

unfoldable pub run : List Op → PauseController → Option PauseController
run [] p = some p
run (o ∷ ops) p = elim (step o p) [ none ↦ none | some q ↦ run ops q ]
