-- ===== src/Pause/Tests.antt =====
-- The controller's theorems at concrete calls.
use ratelimiter_redis.Base.{◌≡◌, refl, true, some, [], ◌∷◌, arith}
use ratelimiter_redis.Base.Clock.{seconds}
use ratelimiter_redis.Pause.{
  PauseController, new_pause_controller, begin_wait, may_go_on, pauses, resumes, run,
}
use ratelimiter_redis.Pause.Resuming.{IsSound, never_panics, wait_exact}

never_panics_test :
    (q : PauseController) × (run
        (resumes ∷ pauses ∷ pauses ∷ resumes ∷ [])
        (new_pause_controller (seconds 2))
      ≡ some q)
    × IsSound q
never_panics_test = never_panics (seconds 2) (resumes ∷ pauses ∷ pauses ∷ resumes ∷ [])

abbrev held : PauseController
held = record (new_pause_controller (seconds 2)) { paused = true; resume = 1; channels = 2 }

held-IsSound : IsSound held
held-IsSound = record { made = omega arith; unmade_open = λ ch h. refl; paused_open = λ h. refl }

-- It is resumed, and then paused again.
wait_exact_example :
    (q : PauseController) × (run (pauses ∷ resumes ∷ pauses ∷ []) held ≡ some q)
    × (may_go_on q (1, seconds 2) (seconds 1) ≡ true)
unfolding begin_wait
wait_exact_example =
    wait_exact held (1, seconds 2) (pauses ∷ resumes ∷ pauses ∷ []) (seconds 1) held-IsSound refl
