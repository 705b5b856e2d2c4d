-- ===== src/Guest/Shutdown/Watchdog.antt =====
-- `watchdog_loop` of guest/src/main.rs over what `wait` returns, each result with the value of
-- `SHUTDOWN_IN_PROGRESS` that is read after it.
use cargo_unikernel.Common.{
  ℕ, ◌≡◌, refl, Bool, true, false, not, ◌==◌, ◌&&◌, List, [], ◌∷◌, ◌++◌, All, if◌then◌else◌, arith,
}

-- `Ok(Some((pid, _)))`, `Err(ECHILD)`, and `Ok(None)` or another error.
pub data Waited : Type 0 where
  exited : ℕ → Waited
  no_child try_again : Waited

pub data Watch : Type 0 where
  watching no_processes_remain : Watch
  app_exited : ℕ → Watch

unfoldable pub watchdog_loop : ℕ → List (Waited × Bool) → Watch
watchdog_loop app_pid [] = Watch.watching
watchdog_loop app_pid ((Waited.exited pid, shutting_down) ∷ rest) =
    let later = watchdog_loop app_pid rest in
    if not (pid == app_pid) then later else if shutting_down then later else Watch.app_exited pid
watchdog_loop app_pid ((Waited.no_child, shutting_down) ∷ rest) =
    let later = watchdog_loop app_pid rest in
    if not shutting_down then Watch.no_processes_remain else later
watchdog_loop app_pid ((Waited.try_again, shutting_down) ∷ rest) = watchdog_loop app_pid rest

-- What counts as a compromise: outside a shutdown the app is gone, or every child.
unfoldable pub alarm : ℕ → Waited × Bool → Bool
alarm app_pid (Waited.exited pid, shutting_down) = (pid == app_pid) && not shutting_down
alarm app_pid (Waited.no_child, shutting_down) = not shutting_down
alarm app_pid (Waited.try_again, shutting_down) = false

-- The watchdog's answer to an alarm.
abbrev pub answer : Waited → Watch
answer (Waited.exited pid) = Watch.app_exited pid
answer Waited.no_child = Watch.no_processes_remain
answer Waited.try_again = Watch.watching

quiet_runs_on :
    (app_pid : ℕ) (before : List (Waited × Bool))
    → All (λ e. alarm app_pid e ≡ false) before
    → watchdog_loop app_pid before ≡ Watch.watching
unfolding watchdog_loop alarm
quiet_runs_on app_pid [] quiet = refl
quiet_runs_on app_pid ((Waited.exited pid, f) ∷ before) quiet =
    ground (arith, quiet_runs_on app_pid before quiet.1, quiet.0)
quiet_runs_on app_pid ((Waited.no_child, f) ∷ before) quiet =
    ground (arith, quiet_runs_on app_pid before quiet.1, quiet.0)
quiet_runs_on app_pid ((Waited.try_again, f) ∷ before) quiet = quiet_runs_on app_pid before quiet.1

alarm_stops :
    (app_pid : ℕ) (before : List (Waited × Bool)) (w : Waited) (flag : Bool)
    (after : List (Waited × Bool))
    → All (λ e. alarm app_pid e ≡ false) before
    → alarm app_pid (w, flag) ≡ true
    → watchdog_loop app_pid (before ++ (w, flag) ∷ after) ≡ answer w
unfolding watchdog_loop alarm
alarm_stops app_pid [] (Waited.exited pid) flag after quiet h = ground arith
alarm_stops app_pid [] Waited.no_child flag after quiet h = ground arith
alarm_stops app_pid [] Waited.try_again flag after quiet h = absurd (cc)
alarm_stops app_pid ((Waited.exited pid, f) ∷ before) w flag after quiet h =
    ground (arith, alarm_stops app_pid before w flag after quiet.1 h, quiet.0)
alarm_stops app_pid ((Waited.no_child, f) ∷ before) w flag after quiet h =
    ground (arith, alarm_stops app_pid before w flag after quiet.1 h, quiet.0)
alarm_stops app_pid ((Waited.try_again, f) ∷ before) w flag after quiet h =
    alarm_stops app_pid before w flag after quiet.1 h

-- Over results of `wait` that are no alarm (the app exits during a shutdown, another process exits,
-- or `wait` is retried) the watchdog goes on watching, and the first alarm that follows stops
-- the guest with its reason.
pub watchdog_stops_at_alarm :
    (app_pid : ℕ) (before : List (Waited × Bool)) (w : Waited) (flag : Bool)
    (after : List (Waited × Bool))
    → All (λ e. alarm app_pid e ≡ false) before
    → alarm app_pid (w, flag) ≡ true
    → (watchdog_loop app_pid before ≡ Watch.watching)
      × (watchdog_loop app_pid (before ++ (w, flag) ∷ after) ≡ answer w)
watchdog_stops_at_alarm app_pid before w flag after quiet h =
    (quiet_runs_on app_pid before quiet, alarm_stops app_pid before w flag after quiet h)
