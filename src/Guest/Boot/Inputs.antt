-- ===== src/Guest/Boot/Inputs.antt =====
-- The calls of `main` in guest/src/main.rs, where it stops, and what it is given: the features, the
-- baked-in constants and the answers of the calls.
use cargo_unikernel.Common.{ℕ, Bool, List, Option, Result}
use cargo_unikernel.Std.Text.{Text}
use cargo_unikernel.Guest.Baked.{Fatal}
use cargo_unikernel.Guest.Firewall.Batch.{Batch}
use cargo_unikernel.Guest.Firewall.Replies.{SendError, Installed}
use cargo_unikernel.Guest.Mounts.{MountOp, MountFatal, MountFeatures, TmpfsConstants, MountAnswers}
use cargo_unikernel.Guest.Etc.Files.{EtcOp, EtcAnswers}
use cargo_unikernel.Guest.Hardening.{Knob, HardeningFeatures, SysctlAnswers}
use cargo_unikernel.Guest.Entropy.{EntropyFatal, PollRound}
use cargo_unikernel.Guest.Landlock
use cargo_unikernel.Guest.Spawn.{ChildOp, ChildAnswers, SpawnConstants, SpawnFatal}
use cargo_unikernel.Guest.Shutdown.Watchdog.{Waited}

pub data BootOp : Type 0 where
  lock_memory mark_non_dumpable : BootOp
  filter_packets : BootOp
  mounting : MountOp → BootOp
  arm_triggers : BootOp
  chown : Text → ℕ → ℕ → BootOp
  etc : EtcOp → BootOp
  set_sysctl : Knob → BootOp
  poll_random : BootOp
  expose_device : BootOp
  configure_static_ipv6 : BootOp
  wait_for_network : BootOp
  make_executable : Text → BootOp
  child : ChildOp → BootOp
  spawn_watcher : ℕ → BootOp

pub data BootFatal : Type 0 where
  not_pid1 : BootFatal
  constant : Fatal → BootFatal
  filter_not_installed : Installed → BootFatal
  mounts_stopped : MountFatal → BootFatal
  triggers_failed : ℕ → BootFatal
  chown_failed : Text → ℕ → BootFatal
  entropy_stopped : EntropyFatal → BootFatal
  app_missing : BootFatal
  chmod_failed : ℕ → BootFatal
  spawn_stopped : SpawnFatal → BootFatal
  watcher_failed : ℕ → BootFatal

-- Where a boot ends that does not come to the watchdog: with a fatal error, or in a wait.
pub data Stop : Type 0 where
  fatal : BootFatal → Stop
  still_waiting : Stop

pub record BootFeatures : Type 0 where
  pub firewall : Bool
  pub net_ipv6 : Bool
  pub mount : MountFeatures
  pub hardening : HardeningFeatures
  pub landlock : Bool
  pub sev_snp : Bool
  pub app_console : Bool

-- The baked-in constants; those of `spawn_app` are in `app_constants`.
pub record BootConstants : Type 0 where
  pub app_constants : SpawnConstants
  pub tmpfs : TmpfsConstants
  pub firewall_rules : Text
  pub nameservers : Text
  pub dns_search : Text
  pub extra_sysctls : Text

pub record BootAnswers : Type 0 where
  pub is_pid1 : Bool
  pub send : Batch → Option (Result SendError (Unit {0}))
  pub mounts : MountAnswers
  pub armed : Result ℕ (Unit {0})
  pub chowned : Text → Result ℕ (Unit {0})
  pub etc_files : EtcAnswers
  pub sysctls : SysctlAnswers
  pub random_opened : Result ℕ (Unit {0})
  pub polls : List PollRound
  pub device_there : Bool
  pub app_there : Bool
  pub app_mode_set : Result ℕ (Unit {0})
  pub landlock_calls : Landlock.Calls
  pub child_calls : ChildAnswers
  pub watcher : Result ℕ (Unit {0})
  pub waits : List (Waited × Bool)
