-- ===== src/Hedging/Tests.antt =====
-- The hedging's theorems at concrete races.
use ratelimiter_redis.Base.{zero, suc, ◌++◌, ℕ, ◌≤◌, ◌≡◌, List, [], ◌∷◌}
use ratelimiter_redis.Http.{Call, set_header, write_header, write}
use ratelimiter_redis.Hedging.{new_writers, race, start, loop_run, receives_timer}
use ratelimiter_redis.Hedging.Handler.{HandlerEvent, serves, takes_done, takes_timer}
use ratelimiter_redis.Hedging.Race.{sent, first_write_alone}
use ratelimiter_redis.Hedging.Launches.{one_hedge}

-- The hedge writes first; the rest of its own body is lost with the first attempt's.
abbrev before : List (ℕ × Call)
before = (0, write_header 200) ∷ (1, set_header "A" "b") ∷ (1, write_header 201) ∷ []

abbrev later : List (ℕ × Call)
later = (0, write "slow") ∷ (1, write "rest") ∷ []

first_write_alone_test :
    sent (race (before ++ (1, write "quick ") ∷ later) new_writers).0
    ≡ write_header 201 ∷ write "quick " ∷ []
first_write_alone_test = first_write_alone before later 1 "quick " tt

one_hedge_test :
    let l = loop_run (receives_timer ∷ receives_timer ∷ receives_timer ∷ []) (start 5) in
    (l.launched ≤ 2) × (l.launched ≤ 6)
one_hedge_test = one_hedge 5 (receives_timer ∷ receives_timer ∷ receives_timer ∷ [])

abbrev calls : ℕ → List Call
calls zero = write_header 200 ∷ write "slow" ∷ []
calls (suc i) = write "quick" ∷ []

abbrev schedule : List HandlerEvent
schedule = serves 0 ∷ takes_timer ∷ serves 1 ∷ serves 1 ∷ takes_done ∷ serves 0 ∷ []
