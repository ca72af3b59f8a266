-- ===== src/Pause/Resuming.antt =====
-- When waiting requests go on.
use ratelimiter_redis.Base.{
  ℕ, ◌≤◌, ◌<◌, ◌≡◌, refl, Bool, true, false, some, List, [], ◌∷◌, arith, if◌then◌else◌,
}
use ratelimiter_redis.Base.Int.{leb_ℤ}
use ratelimiter_redis.Base.Clock.{Duration}
use ratelimiter_redis.Pause.{
  close_channel, PauseController, new_pause_controller, do_pause, do_resume, begin_wait, may_go_on,
  Op, pauses, resumes, step, run,
}

-- Channels that are not made yet are open, and so is `resume` while the controller is paused.
pub record IsSound (p : PauseController) : Type 0 where
  pub made : p.resume < p.channels
  pub unmade_open : (ch : ℕ) → p.channels ≤ ch → p.closed ch ≡ false
  pub paused_open : p.paused ≡ true → p.closed p.resume ≡ false

new-IsSound : (d : Duration) → IsSound (new_pause_controller d)
new-IsSound d = record { made = omega arith; unmade_open = λ ch h. refl; paused_open = λ h. refl }

do_pause-IsSound : (p : PauseController) → IsSound p → IsSound (do_pause p)
unfolding do_pause
do_pause-IsSound p h = record {
  made = ground arith;
  unmade_open = λ ch le. ground (arith, h.unmade_open ch);
  paused_open = λ e. ground (arith, h.unmade_open p.channels);
}

-- What `Resume` leaves, where it does not panic.
abbrev resumed : PauseController → PauseController
resumed p =
    if p.paused then record p { paused = false; closed = close_channel p.resume p.closed } else p

do_resume_lem : (p : PauseController) → IsSound p → do_resume p ≡ some (resumed p)
unfolding do_resume
do_resume_lem p h = ground (arith, h.paused_open)

resumed-IsSound : (p : PauseController) → IsSound p → IsSound (resumed p)
resumed-IsSound p h = record {
  made = ground arith;
  unmade_open = λ ch le. ground (arith, h.unmade_open ch);
  paused_open = λ e. ground arith;
}

abbrev after : Op → PauseController → PauseController
after pauses p = do_pause p
after resumes p = resumed p

step_lem : (o : Op) (p : PauseController) → IsSound p → step o p ≡ some (after o p)
unfolding step
step_lem pauses p h = refl
step_lem resumes p h = do_resume_lem p h

after-IsSound : (o : Op) (p : PauseController) → IsSound p → IsSound (after o p)
after-IsSound pauses p h = do_pause-IsSound p h
after-IsSound resumes p h = resumed-IsSound p h

abbrev pub any_resume : List Op → Bool
any_resume [] = false
any_resume (pauses ∷ ops) = any_resume ops
any_resume (resumes ∷ ops) = true

stays_closed :
    (o : Op) (p : PauseController) (ch : ℕ) → p.closed ch ≡ true → (after o p).closed ch ≡ true
unfolding do_pause
stays_closed pauses p ch h = ground arith
stays_closed resumes p ch h = ground arith

run_closed :
    (ops : List Op) (p : PauseController) (ch : ℕ)
    → IsSound p
    → p.closed ch ≡ true
    → (q : PauseController) × (run ops p ≡ some q) × (q.closed ch ≡ true)
unfolding run
run_closed [] p ch s h = (p, refl, h)
run_closed (o ∷ ops) p ch s h =
    rw (step_lem o p s, run)
      (run_closed ops (after o p) ch (after-IsSound o p s) (stays_closed o p ch h))

pause_again : (p : PauseController) → p.paused ≡ true → do_pause p ≡ p
unfolding do_pause
pause_again p h = simp h

run_waits :
    (ops : List Op) (p : PauseController)
    → IsSound p
    → p.paused ≡ true
    → (q : PauseController) × (run ops p ≡ some q) × (q.closed p.resume ≡ any_resume ops)
unfolding run do_pause
run_waits [] p s h = (p, refl, s.paused_open h)
run_waits (pauses ∷ ops) p s h =
    rw (step_lem pauses p s, run) (rw (pause_again p h) (run_waits ops p s h))
run_waits (resumes ∷ ops) p s h =
    rw (step_lem resumes p s, run)
      (run_closed ops (resumed p) p.resume (resumed-IsSound p s) (ground arith))

run-IsSound :
    (ops : List Op) (p : PauseController)
    → IsSound p
    → (q : PauseController) × (run ops p ≡ some q) × IsSound q
unfolding run
run-IsSound [] p s = (p, refl, s)
run-IsSound (o ∷ ops) p s =
    rw (step_lem o p s, run) (run-IsSound ops (after o p) (after-IsSound o p s))

-- No sequence of calls of `Pause` and `Resume` on a new controller closes a channel twice.
pub never_panics :
    (d : Duration) (ops : List Op)
    → (q : PauseController) × (run ops (new_pause_controller d) ≡ some q) × IsSound q
never_panics d ops = run-IsSound ops (new_pause_controller d) (new-IsSound d)

begin_wait_lem :
    (p : PauseController) (w : ℕ × Duration)
    → begin_wait p ≡ some w
    → (p.paused ≡ true) × (w ≡ (p.resume, p.max_hold))
unfolding begin_wait
begin_wait_lem p w h = ground arith

-- A request that began to wait on a sound controller finds itself, after any further calls, free to go
-- on at once if a `Resume` is among them, also where the controller is paused again; and otherwise when
-- it has waited for `maxHold`.
pub wait_exact :
    (p : PauseController) (w : ℕ × Duration) (ops : List Op) (waited : Duration)
    → IsSound p
    → begin_wait p ≡ some w
    → (q : PauseController) × (run ops p ≡ some q)
      × (may_go_on q w waited ≡ (if any_resume ops then true else leb_ℤ p.max_hold waited))
unfolding begin_wait may_go_on
wait_exact p w ops waited s b =
    let waits = begin_wait_lem p w b in
    let (q, e, c) = run_waits ops p s waits.0 in (q, e, rw (waits.1, c))
