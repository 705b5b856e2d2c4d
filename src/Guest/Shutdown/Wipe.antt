-- ===== src/Guest/Shutdown/Wipe.antt =====
-- The way from a stop request or a fatal error to the power-off in guest/src/shutdown.rs:
-- `run_graceful_shutdown`, `kill_wipe_and_power_off` and what they call, in one thread. What the
-- clock and the calls say in each round of a loop is the input; nothing comes of a list of rounds
-- at whose end the code still waits.
pub mod PowersOff
pub mod Covers
use cargo_unikernel.Common.{
  ℕ, suc, ◌-◌, ◌^◌, Bool, true, false, ◌||◌, ◌&&◌, not, leb, ltb, ◌==◌, if◌then◌else◌, List, [],
  ◌∷◌, ◌++◌, replicate, Option, none, some,
}
use cargo_unikernel.Std.Text.{Text, codes}

pub data WipeOp : Type 0 where
  terminate : ℕ → WipeOp
  pause : WipeOp
  kill_all reap probe : WipeOp
  scrub : Text → WipeOp
  unmount : Text → WipeOp
  sync : WipeOp
  power_off halt exit_init : WipeOp

abbrev pub Ops : Type 0
Ops = List WipeOp

-- A round's calls in front of what the rounds after it come to.
abbrev pub before : Ops → Option Ops → Option Ops
before ops none = none
before ops (some later) = some (ops ++ later)

-- `Pid::from_raw` of an `i32::try_from`.
unfoldable pub is_pid : ℕ → Bool
is_pid pid = ltb 0 pid && leb pid (2 ^ 31 - 1)

unfoldable pub process_alive : ℕ → Bool → Bool
unfolding is_pid
process_alive pid answers = is_pid pid && answers

-- Whether a signal to the app finds it, and whether the clock is at or past the deadline when it is read.
pub record GraceRound : Type 0 where
  pub alive : Bool
  pub past_deadline : Bool

unfoldable pub wait_for_app : ℕ → List GraceRound → Option Ops
unfolding process_alive
wait_for_app app_pid [] = none
wait_for_app app_pid (r ∷ rounds) =
    let later = wait_for_app app_pid rounds in
    if not (process_alive app_pid r.alive) || r.past_deadline
    then some []
    else before (pause ∷ []) later

-- Whether the clock is before the deadline, how many children `wait` reaps before it has no more,
-- and whether `kill(-1, 0)` still finds a process.
pub record SettleRound : Type 0 where
  pub before_deadline : Bool
  pub reaped : ℕ
  pub others : Bool

unfoldable pub wait_for_processes_to_exit : List SettleRound → Option Ops
wait_for_processes_to_exit [] = none
wait_for_processes_to_exit (r ∷ rounds) =
    let later = wait_for_processes_to_exit rounds in
    let reaps = replicate r.reaped reap in
    if not r.before_deadline
    then some []
    else if not r.others
    then some (reaps ++ probe ∷ [])
    else before (reaps ++ probe ∷ pause ∷ []) later

-- `unmount_var` of guest/src/storage.rs: of the two calls the second one's result is logged.
unfoldable pub unmount_var : Ops
unmount_var = unmount (codes "/var/tmp") ∷ unmount (codes "/var") ∷ []

-- With the feature `storage-persistent`, and without.
unfoldable pub wipe_var : Bool → Ops
unfolding unmount_var
wipe_var true = unmount_var
wipe_var false = scrub (codes "/var") ∷ []

unfoldable pub wipe_writable_state : Bool → Ops
unfolding wipe_var
wipe_writable_state persistent =
    scrub (codes "/var/tmp")
    ∷ scrub (codes "/tmp")
    ∷ scrub (codes "/run")
    ∷ scrub (codes "/dev/shm")
    ∷ (wipe_var persistent ++ sync ∷ [])

-- A `reboot` that returns was refused.
unfoldable pub force_power_off : Bool → Bool → Ops
force_power_off off_refused halt_refused =
    power_off ∷ (if off_refused then halt ∷ (if halt_refused then exit_init ∷ [] else []) else [])

-- What the calls of one shutdown answer: whether `WIPE_STARTED` was set before, whether the
-- deadline's thread was spawned, and whether the kernel refuses the two reboots.
pub record ShutdownAnswers : Type 0 where
  pub started : Bool
  pub armed : Bool
  pub off_refused : Bool
  pub halt_refused : Bool
  pub settle : List SettleRound

unfoldable pub kill_wipe_and_power_off : Bool → ShutdownAnswers → Option Ops
unfolding wait_for_processes_to_exit wipe_writable_state force_power_off
kill_wipe_and_power_off persistent a =
    let off = force_power_off a.off_refused a.halt_refused in
    if a.started || not a.armed
    then some off
    else before (kill_all ∷ []) (elim (wait_for_processes_to_exit a.settle) [
      | none ↦ none
      | some settled ↦ some (settled ++ (wipe_writable_state persistent ++ off))
    ])

-- From PID 1; anywhere else the process exits.
unfoldable pub wipe_and_power_off : Bool → Bool → ShutdownAnswers → Option Ops
unfolding kill_wipe_and_power_off
wipe_and_power_off is_pid1 persistent a =
    if is_pid1 then kill_wipe_and_power_off persistent a else some (exit_init ∷ [])

unfoldable pub run_graceful_shutdown : ℕ → Bool → List GraceRound → ShutdownAnswers → Option Ops
unfolding is_pid wait_for_app kill_wipe_and_power_off
run_graceful_shutdown app_pid persistent grace a =
    before (if is_pid app_pid then terminate app_pid ∷ [] else [])
      (elim (wait_for_app app_pid grace) [
        | none ↦ none
        | some waited ↦ before waited (kill_wipe_and_power_off persistent a)
      ])
