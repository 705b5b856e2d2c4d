-- ===== src/Examples/Poweroff.antt =====
-- The theorems on the way to the power-off, at one shutdown.
use cargo_unikernel.Common.{◌≡◌, refl, true, false, List, [], ◌∷◌, ◌++◌, some, All, any}
use cargo_unikernel.Std.Text.{codes}
use cargo_unikernel.Guest.Mounts.{prepare_system_env}
use cargo_unikernel.Guest.Shutdown.Wipe.{
  Ops, GraceRound, ShutdownAnswers, kill_all, reap, probe, pause, wipe_writable_state,
  force_power_off, kill_wipe_and_power_off, run_graceful_shutdown,
}
use cargo_unikernel.Guest.Shutdown.Wipe.PowersOff.{PowersOff, graceful-PowersOff}
use cargo_unikernel.Guest.Shutdown.Wipe.Covers.{Scrubbed, wipe_covers_mounts}
use cargo_unikernel.Examples.Launch.{mount_features, tmpfs, mounts}

-- The app stays, and the clock passes the deadline.
abbrev stubborn : List GraceRound
stubborn =
    record { alive = true; past_deadline = false }
    ∷ record { alive = true; past_deadline = true }
    ∷ []

-- One child is reaped in the first round, and no other process is left in the second.
abbrev shutdown : ShutdownAnswers
shutdown = record {
  started = false;
  armed = true;
  off_refused = true;
  halt_refused = false;
  settle =
      record { before_deadline = true; reaped = 1; others = true }
      ∷ record { before_deadline = true; reaped = 0; others = false }
      ∷ record { before_deadline = false; reaped = 0; others = false }
      ∷ [];
}

graceful-PowersOff_example : PowersOff (run_graceful_shutdown 42 false stubborn shutdown) shutdown
unfolding any
graceful-PowersOff_example = graceful-PowersOff 42 false stubborn shutdown refl refl

abbrev wiped : Ops
wiped =
    kill_all
    ∷ reap
    ∷ probe
    ∷ pause
    ∷ probe
    ∷ (wipe_writable_state false ++ force_power_off true false)

shut_down : kill_wipe_and_power_off false shutdown ≡ some wiped
unfolding kill_wipe_and_power_off
shut_down = refl

wipe_covers_mounts_example :
    (later : Ops) × (wiped ≡ kill_all ∷ later)
    × All (Scrubbed later) (prepare_system_env mount_features tmpfs mounts (codes "/payload")).0
wipe_covers_mounts_example =
    wipe_covers_mounts mount_features tmpfs mounts (codes "/payload") shutdown wiped refl refl
      shut_down
