-- ===== src/Guest/Shutdown/Interlock.antt =====
-- `kill_wipe_and_power_off` of guest/src/shutdown.rs, which the graceful and the fatal path both
-- end in, on any number of threads. A schedule names the thread that takes the next step, and
-- whether `arm_wipe_deadline` succeeds if that is the step.
use cargo_unikernel.Common.{
  ℕ, suc, zero, ◌+◌, ◌≤◌, ◌≡◌, refl, Bool, true, false, List, [], ◌∷◌, if◌then◌else◌, arith,
  replicate,
}

-- Where a thread stands: before the swap of `WIPE_STARTED`, before each further call, and in
-- `force_power_off`, which does not return.
pub data Stage : Type 0 where
  entering arming killing settling scrubbing announcing powering_off : Stage

-- The next step of a thread, with the flag before and after.
unfoldable pub advance : Bool → Bool → Stage → Bool × Stage
advance started armed Stage.entering = (true, if started then Stage.powering_off else Stage.arming)
advance started armed Stage.arming = (started, if armed then Stage.killing else Stage.powering_off)
advance started armed Stage.killing = (started, Stage.settling)
advance started armed Stage.settling = (started, Stage.scrubbing)
advance started armed Stage.scrubbing = (started, Stage.announcing)
advance started armed Stage.announcing = (started, Stage.powering_off)
advance started armed Stage.powering_off = (started, Stage.powering_off)

pub record Threads : Type 0 where
  pub started : Bool
  pub stages : List Stage

unfoldable pub advance_thread : ℕ → Bool → Bool → List Stage → Bool × List Stage
unfolding advance
advance_thread i armed started [] = (started, [])
advance_thread zero armed started (g ∷ gs) = let r = advance started armed g in (r.0, r.1 ∷ gs)
advance_thread (suc i) armed started (g ∷ gs) =
    let r = advance_thread i armed started gs in (r.0, g ∷ r.1)

unfoldable pub run : Threads → List (ℕ × Bool) → Threads
unfolding advance_thread
run t [] = t
run t ((i, armed) ∷ schedule) =
    let r = advance_thread i armed t.started t.stages in
    run (record { started = r.0; stages = r.1 }) schedule

unfoldable pub enter : ℕ → Threads
enter n = record { started = false; stages = replicate n Stage.entering }

-- Past the interlock, and not yet at the power-off.
unfoldable pub wiping : Stage → ℕ
wiping Stage.entering = 0
wiping Stage.powering_off = 0
wiping _ = 1

unfoldable pub wipers : List Stage → ℕ
unfolding wiping
wipers [] = 0
wipers (g ∷ gs) = wiping g + wipers gs

-- The flag's unset state is the right to wipe, and a step passes it on at most.
unfoldable pub right : Bool → ℕ
right true = 0
right false = 1

advance-right :
    (started armed : Bool) (g : Stage)
    → wiping (advance started armed g).1 + right (advance started armed g).0
      ≤ wiping g + right started
unfolding wiping right advance
advance-right true armed Stage.entering = omega arith
advance-right false armed Stage.entering = omega arith
advance-right started true Stage.arming = omega arith
advance-right started false Stage.arming = omega arith
advance-right started armed Stage.killing = omega arith
advance-right started armed Stage.settling = omega arith
advance-right started armed Stage.scrubbing = omega arith
advance-right started armed Stage.announcing = omega arith
advance-right started armed Stage.powering_off = omega arith

advance_thread-right :
    (i : ℕ) (armed started : Bool) (gs : List Stage)
    → wipers (advance_thread i armed started gs).1 + right (advance_thread i armed started gs).0
      ≤ wipers gs + right started
unfolding wipers advance_thread
advance_thread-right i armed started [] = omega arith
advance_thread-right zero armed started (g ∷ gs) = omega (arith, advance-right started armed g)
advance_thread-right (suc i) armed started (g ∷ gs) =
    omega (arith, advance_thread-right i armed started gs)

run-right :
    (t : Threads) (schedule : List (ℕ × Bool))
    → wipers (run t schedule).stages ≤ wipers t.stages + right t.started
unfolding run
run-right t [] = omega arith
run-right t ((i, armed) ∷ schedule) =
    let r = advance_thread i armed t.started t.stages in
    omega (
      arith,
      advance_thread-right i armed t.started t.stages,
      run-right (record { started = r.0; stages = r.1 }) schedule,
    )

enter-wipers : (n : ℕ) → wipers (replicate n Stage.entering) ≡ 0
unfolding wipers wiping
enter-wipers zero = refl
enter-wipers (suc n) = omega (arith, enter-wipers n)

-- However many threads enter, and in whatever order they run, one at most is wiping.
pub one_wiper : (n : ℕ) (schedule : List (ℕ × Bool)) → wipers (run (enter n) schedule).stages ≤ 1
unfolding enter right
one_wiper n schedule = omega (arith, run-right (enter n) schedule, enter-wipers n)
