-- ===== src/Guest/Boot.antt =====
-- `main` of guest/src/main.rs up to the watchdog: the order of the boot, and where it stops. What
-- the calls answer is the input. The messages are left out.
mod Inputs
unfoldable pub use Inputs.*
pub mod MountCalls
pub mod Confined
use cargo_unikernel.Common.{
  ℕ, ◌==◌, Bool, true, false, List, [], ◌∷◌, ◌++◌, map, Option, none, some, if◌then◌else◌, Result,
  ok, err, reject_if, not,
}
use cargo_unikernel.Std.Text.{Text, codes}
use cargo_unikernel.Guest.Baked.{Fatal, app_ids, parse_pairs}
use cargo_unikernel.Guest.Firewall.Rules.{parse_rules}
use cargo_unikernel.Guest.Firewall.Batch.{Batch}
use cargo_unikernel.Guest.Firewall.Replies.{
  SendError, Installed, installed, build_failed, install_failed, install,
}
use cargo_unikernel.Guest.Mounts.{
  MountOp, MountFatal, MountFeatures, TmpfsConstants, MountAnswers, prepare_system_env,
  lockdown_filesystem,
}
use cargo_unikernel.Guest.Etc.Files.{EtcOp, EtcAnswers, write_etc}
use cargo_unikernel.Guest.Hardening.{
  Knob, HardeningFeatures, SysctlAnswers, Sysctls, attempts, apply,
}
use cargo_unikernel.Guest.Entropy.{EntropyFatal, EntropyWait, PollRound, wait_for_entropy}
use cargo_unikernel.Guest.Landlock
use cargo_unikernel.Guest.Spawn.{
  Program, ChildOp, ChildAnswers, SpawnFeatures, SpawnConstants, SpawnFatal, spawn_app,
}
use cargo_unikernel.Guest.Shutdown.Watchdog.{Waited, Watch, watchdog_loop}
use cargo_unikernel.Guest.Trace.{Trace, ◌>>=◌, ◌>>◌, pure, demand, attempt, best_effort, within}

abbrev pub Boot : Type 0 → Type 0
Boot A = Trace BootOp Stop A

-- What the filter's installation comes to.
unfoldable pub outcome_of : Option Installed → Result Stop (Unit {0})
outcome_of none = err still_waiting
outcome_of (some installed) = ok tt
outcome_of (some (build_failed e)) = err (fatal (filter_not_installed (build_failed e)))
outcome_of (some (install_failed e)) = err (fatal (filter_not_installed (install_failed e)))

abbrev pub same : Stop → Stop
same e = e

unfoldable pub install_filter : BootFeatures → BootConstants → BootAnswers → Boot (Unit {0})
unfolding outcome_of
install_filter f k a =
    if f.firewall
    then (demand (λ e. fatal (constant e)) (parse_rules k.firewall_rules) >>= λ rules.
        attempt filter_packets same (outcome_of (install f.net_ipv6 a.send rules)))
    else pure tt

unfoldable pub chown_dirs : BootAnswers → ℕ → ℕ → List Text → Boot (Unit {0})
chown_dirs a uid gid [] = pure tt
chown_dirs a uid gid (dir ∷ dirs) = do
  attempt (chown dir uid gid) (λ errno. fatal (chown_failed dir errno)) (a.chowned dir)
  chown_dirs a uid gid dirs

abbrev pub app_owned_dirs : List Text
app_owned_dirs = codes "/var" ∷ codes "/run" ∷ []

-- Calls that the boot does not stop at.
unfoldable pub performed : {X : Type 0} → (X → BootOp) → List X → Boot (Unit {0})
performed call ops = (map call ops, ok tt)

unfoldable pub entropy_of : EntropyWait → Result Stop (Unit {0})
entropy_of none = err still_waiting
entropy_of (some (ok _)) = ok tt
entropy_of (some (err e)) = err (fatal (entropy_stopped e))

unfoldable pub expose_sev_guest_device : Bool → Bool → Boot (Unit {0})
expose_sev_guest_device sev_snp there =
    if sev_snp then (if there then best_effort expose_device else pure tt) else pure tt

unfoldable pub if_compiled : Bool → BootOp → Boot (Unit {0})
if_compiled on op = if on then best_effort op else pure tt

unfoldable pub prepare_app_binary : BootConstants → BootAnswers → Boot (Unit {0})
prepare_app_binary k a = do
  demand same (reject_if (not a.app_there) (fatal app_missing))
  attempt (make_executable k.app_constants.app_path) (λ errno. fatal (chmod_failed errno))
      a.app_mode_set

abbrev pub spawn_features : BootFeatures → SpawnFeatures
spawn_features f = record {
  landlock = f.landlock;
  sev_snp = f.sev_snp;
  allow_write_execute = f.mount.allow_write_execute;
  app_console = f.app_console;
}

-- `main` up to the mounts, with the app's ids.
unfoldable pub begin : BootFeatures → BootConstants → BootAnswers → Boot (ℕ × ℕ)
unfolding install_filter
begin f k a = do
  best_effort lock_memory
  demand same (reject_if (not a.is_pid1) (fatal not_pid1))
  ids ← demand (λ e. fatal (constant e)) (app_ids k.app_constants.app_uid k.app_constants.app_gid)
  best_effort mark_non_dumpable
  install_filter f k a
  pure ids

abbrev pub mounts_or_stop : MountFatal → Stop
mounts_or_stop e = fatal (mounts_stopped e)

-- From the triggers to the sysctls.
unfoldable pub set_up : BootFeatures → BootConstants → BootAnswers → ℕ × ℕ → Boot (Unit {0})
unfolding chown_dirs performed
set_up f k a ids = do
  attempt arm_triggers (λ errno. fatal (triggers_failed errno)) a.armed
  chown_dirs a ids.0 ids.1 app_owned_dirs
  performed etc (write_etc a.etc_files ids.0 ids.1 k.nameservers k.dns_search)
  extra ←
      demand (λ e. fatal (constant e))
        (parse_pairs k.extra_sysctls (codes "[hardening].extra_sysctls"))
  performed set_sysctl (attempts (apply a.sysctls f.hardening extra))

-- The wait for entropy.
unfoldable pub seed : BootAnswers → Boot (Unit {0})
unfolding entropy_of
seed a = attempt poll_random same (entropy_of (wait_for_entropy a.random_opened a.polls))

-- From there to the app's binary.
unfoldable pub make_ready : BootFeatures → BootConstants → BootAnswers → Boot (Unit {0})
unfolding expose_sev_guest_device if_compiled prepare_app_binary
make_ready f k a = do
  expose_sev_guest_device f.sev_snp a.device_there
  if_compiled f.net_ipv6 configure_static_ipv6
  if_compiled f.mount.networking wait_for_network
  prepare_app_binary k a

-- `main` up to the call of `spawn_app`.
unfoldable pub boot : BootFeatures → BootConstants → BootAnswers → Boot (Unit {0})
unfolding begin set_up seed make_ready
boot f k a = do
  ids ← begin f k a
  within mounting mounts_or_stop
      (prepare_system_env f.mount k.tmpfs a.mounts k.app_constants.payload_dir)
  set_up f k a ids
  seed a
  make_ready f k a
  within mounting mounts_or_stop
      (lockdown_filesystem f.mount k.tmpfs a.mounts k.app_constants.payload_dir)

module _ (number : Text → ℕ) (compile : List ℕ → Option Program) where
  unfoldable pub launch : BootFeatures → BootConstants → BootAnswers → Boot ℕ
  unfolding boot
  launch f k a = do
    boot f k a
    within child (λ e. fatal (spawn_stopped e))
        (spawn_app number compile a.landlock_calls a.child_calls (spawn_features f) k.app_constants)

  unfoldable pub main : BootFeatures → BootConstants → BootAnswers → Boot Watch
  unfolding launch
  main f k a = do
    pid ← launch f k a
    attempt (spawn_watcher pid) (λ errno. fatal (watcher_failed errno)) a.watcher
    pure (watchdog_loop pid a.waits)
