-- ===== src/Examples/Launch.antt =====
-- The theorems on the boot's order, the mounts and the app's process, at one boot.
use cargo_unikernel.Common.{
  ℕ, ◌≡◌, refl, true, false, List, [], ◌++◌, Option, none, some, ok, err, length, retain, leb,
  traverse, if◌then◌else◌,
}
use cargo_unikernel.Std.Text.{Text, codes, split, split_once, contains}
use cargo_unikernel.Std.Decimal.{parse_uint, show}
use cargo_unikernel.Guest.Baked.{
  app_ids, validate_app_ids, baked, parse_pairs, parse_pair, limit_mb_bytes, non_empty,
}
use cargo_unikernel.Guest.Landlock
use cargo_unikernel.Guest.Mounts.{
  MountFeatures, TmpfsConstants, MountAnswers, prepare_system_env, lockdown_filesystem,
}
use cargo_unikernel.Guest.Mounts.Sealed.{Settled, lockdown-Settled}
use cargo_unikernel.Guest.Entropy.{wait_for_entropy}
use cargo_unikernel.Guest.Spawn.{Program, ChildAnswers, SpawnConstants, spawn_app}
use cargo_unikernel.Guest.Spawn.Confined.{AppConfined, app_confined}
use cargo_unikernel.Guest.Trace.{best_effort, within}
use cargo_unikernel.Guest.Boot.{BootFeatures, BootConstants, BootAnswers, launch, spawn_features}
use cargo_unikernel.Guest.Boot.Confined.{LaunchConfined, launch_confines}
use cargo_unikernel.Examples.Sysctls.{sysctl_files, polls, all_hardening}

abbrev pub mount_features : MountFeatures
mount_features = record {
  allow_write_execute = false;
  storage_persistent = false;
  networking = true;
  proc_subset_pid = true;
}

abbrev pub tmpfs : TmpfsConstants
tmpfs = record {
  tmp_mb = codes "64";
  run_mb = codes "16";
  shm_mb = codes "16";
  var_tmp_mb = codes "64";
}

-- Every call succeeds.
abbrev pub mounts : MountAnswers
mounts = record {
  mounted = λ target. ok tt;
  bound = ok tt;
  remounted = λ target. ok tt;
  var_tmp_made = ok tt;
  var_tmp_opened = ok 3;
  storage = record {
    superblock = err 6;
    opened = err 6;
    size = err 6;
    wiped = λ n. err 6;
    synced = err 6;
    formatted = err 6;
    mounted = err 6;
  };
}

mounts_prepared : (prepare_system_env mount_features tmpfs mounts (codes "/payload")).1 ≡ ok tt
unfolding prepare_system_env baked parse_uint best_effort contains show
mounts_prepared = refl

mounts_locked : (lockdown_filesystem mount_features tmpfs mounts (codes "/payload")).1 ≡ ok tt
unfolding lockdown_filesystem best_effort baked parse_uint
mounts_locked = refl

lockdown-Settled_example : Settled false (
    (prepare_system_env mount_features tmpfs mounts (codes "/payload")).0
    ++ (lockdown_filesystem mount_features tmpfs mounts (codes "/payload")).0)
lockdown-Settled_example =
    lockdown-Settled mount_features mounts (codes "/payload") tmpfs mounts_prepared mounts_locked

-- Numbers of system calls by the length of their names, and a compiler that keeps none.
abbrev pub number : Text → ℕ
number name = length name

abbrev compile : List ℕ → Option Program
compile numbers = some []

abbrev pub landlock_kernel : Landlock.Calls
landlock_kernel = record {
  abi_version = some 6;
  create_ruleset = ok tt;
  open_path = λ path. ok tt;
  fstat = λ path. ok true;
  add_path = λ path access. ok tt;
}

-- The kernel knows 41 capabilities.
abbrev child_kernel : ChildAnswers
child_kernel = record {
  forked = ok 42;
  rlimit = λ resource value. ok tt;
  bounding = λ cap. if leb 41 cap then err 22 else ok tt;
  groups = ok tt;
  gid = ok tt;
  uid = ok tt;
  exec_gain = ok tt;
  new_privs = ok tt;
  restricted = ok tt;
  gate_new_privs = ok tt;
  gate = ok tt;
  denylist = ok tt;
  executed = ok tt;
}

abbrev pub constants : SpawnConstants
constants = record {
  payload_dir = codes "/payload";
  app_path = codes "/payload/app";
  app_uid = codes "65534";
  app_gid = codes "65534";
  app_env = codes "MODE=prod";
  limit_nofile = codes "1024";
  limit_nproc = codes "64";
  limit_memlock_mb = codes "64";
  limit_as_mb = codes "0";
  landlock_ro = codes "/data";
  landlock_rw = [];
}

abbrev pub features : BootFeatures
features = record {
  firewall = false;
  net_ipv6 = true;
  mount = mount_features;
  hardening = all_hardening;
  landlock = true;
  sev_snp = true;
  app_console = false;
}

app_spawned :
    (spawn_app number compile landlock_kernel child_kernel (spawn_features features) constants).1
    ≡ ok 42
unfolding spawn_app baked parse_uint limit_mb_bytes contains retain split non_empty validate_app_ids
    traverse parse_pair split_once within
app_spawned = refl

app_confined_example :
    AppConfined number compile landlock_kernel
      (spawn_features features)
      constants
      (spawn_app number compile landlock_kernel child_kernel (spawn_features features) constants).0
app_confined_example =
    app_confined number compile landlock_kernel child_kernel (spawn_features features) constants 42
      app_spawned

abbrev boot_constants : BootConstants
boot_constants = record {
  app_constants = constants;
  tmpfs = tmpfs;
  firewall_rules = [];
  nameservers = codes "9.9.9.9";
  dns_search = [];
  extra_sysctls = codes "/proc/sys/vm/swappiness=10";
}

abbrev answers : BootAnswers
answers = record {
  is_pid1 = true;
  send = λ batch. none;
  mounts = mounts;
  armed = ok tt;
  chowned = λ dir. ok tt;
  etc_files = record { written = λ path. ok tt; pnp = err 2 };
  sysctls = sysctl_files;
  random_opened = ok tt;
  polls = polls;
  device_there = true;
  app_there = true;
  app_mode_set = ok tt;
  landlock_calls = landlock_kernel;
  child_calls = child_kernel;
  watcher = ok tt;
  waits = [];
}

launched : (launch number compile features boot_constants answers).1 ≡ ok 42
unfolding launch best_effort app_ids prepare_system_env show parse_pairs lockdown_filesystem
    spawn_app baked parse_uint limit_mb_bytes contains retain split non_empty validate_app_ids
    traverse parse_pair split_once within wait_for_entropy
launched = refl

launch_confines_example :
    LaunchConfined number compile features boot_constants answers
      (launch number compile features boot_constants answers).0
launch_confines_example = launch_confines number compile features boot_constants answers 42 launched
