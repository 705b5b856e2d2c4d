-- ===== src/Guest/Mounts.antt =====
-- guest/src/mounts.rs: `prepare_system_env` and `lockdown_filesystem`. What the calls answer is the
-- input; a write to the log is not recorded.
mod Calls
pub mod Prepared
pub mod Sealed
unfoldable pub use Calls.*
use cargo_unikernel.Common.{
  ℕ, Bool, true, false, List, [], ◌∷◌, ◌++◌, Option, none, some, if◌then◌else◌, Result, ok, err,
  map,
}
use cargo_unikernel.Std.Text.{Text, codes}
use cargo_unikernel.Guest.Storage.{
  Op, zero_device, sync_device, run_mke2fs, mount_var, Answers, Outcome, mount_persistent_var,
}
use cargo_unikernel.Guest.Trace.{Trace, ◌>>=◌, ◌>>◌, pure, demand, attempt, best_effort}

-- The features that the file looks at; networking is either `net-ipv4` or `net-ipv6`.
pub record MountFeatures : Type 0 where
  pub allow_write_execute : Bool
  pub storage_persistent : Bool
  pub networking : Bool
  pub proc_subset_pid : Bool

-- The constants TMPFS_TMP_MB, TMPFS_RUN_MB, TMPFS_SHM_MB and TMPFS_VAR_TMP_MB.
pub record TmpfsConstants : Type 0 where
  pub tmp_mb : Text
  pub run_mb : Text
  pub shm_mb : Text
  pub var_tmp_mb : Text

-- By target: a mount, a remount. `var_tmp_made` and `var_tmp_opened` are for the mount point of
-- `/var/tmp`, and the latter has the descriptor.
pub record MountAnswers : Type 0 where
  pub mounted : Text → Result ℕ (Unit {0})
  pub bound : Result ℕ (Unit {0})
  pub remounted : Text → Result ℕ (Unit {0})
  pub var_tmp_made : Result DirError (Unit {0})
  pub var_tmp_opened : Result ℕ ℕ
  pub storage : Answers

abbrev pub Run : Type 0 → Type 0
Run A = Trace MountOp MountFatal A

pub record BaseMount : Type 0 where
  pub source : Text
  pub target : Text
  pub fstype : Text
  pub flags : MountFlags
  pub data_text : Option Text

unfoldable pub tmpfs_option : Text → Text → Text → Run Text
unfolding tmpfs_data
tmpfs_option mb what rest = demand bad_constant (tmpfs_data mb what rest)

-- `mount(...).unwrap_or_else(|e| fatal(...))`; the text is that of the message.
unfoldable pub mount_or_stop :
    MountAnswers → Text → Target → Text → MountFlags → Option Text → Run (Unit {0})
unfolding mount_data
mount_or_stop a source target fstype flags data_text = do
  demand (mount_failed (directory_of target)) (mount_data data_text)
  attempt (mount source target fstype flags data_text)
      (λ errno. mount_failed (directory_of target) (os_error errno))
      (a.mounted (directory_of target))

unfoldable pub remount_or_stop : MountAnswers → Text → MountFlags → Text → Run (Unit {0})
remount_or_stop a target flags options =
    attempt (remount target flags options) (remount_failed target) (a.remounted target)

unfoldable pub base_mounts : Bool → Text → Text → Text → List BaseMount
unfolding nosuid_nodev_noexec union writable_exec_mount_flags
base_mounts allow_write_execute tmp_data run_data shm_data =
    record {
      source = codes "proc";
      target = codes "/proc";
      fstype = codes "proc";
      flags = nosuid_nodev_noexec;
      data_text = some (codes "hidepid=2");
    }
    ∷ record {
      source = codes "sysfs";
      target = codes "/sys";
      fstype = codes "sysfs";
      flags = nosuid_nodev_noexec;
      data_text = none;
    }
    ∷ record {
      source = codes "devtmpfs";
      target = codes "/dev";
      fstype = codes "devtmpfs";
      flags = union nosuid_flag noexec_flag;
      data_text = none;
    }
    ∷ record {
      source = codes "tmpfs";
      target = codes "/tmp";
      fstype = codes "tmpfs";
      flags = writable_exec_mount_flags allow_write_execute;
      data_text = some tmp_data;
    }
    ∷ record {
      source = codes "tmpfs";
      target = codes "/run";
      fstype = codes "tmpfs";
      flags = nosuid_nodev_noexec;
      data_text = some run_data;
    }
    ∷ record {
      source = codes "tmpfs";
      target = codes "/dev/shm";
      fstype = codes "tmpfs";
      flags = nosuid_nodev_noexec;
      data_text = some shm_data;
    }
    ∷ []

unfoldable pub mount_base : MountAnswers → List BaseMount → Run (Unit {0})
unfolding mount_or_stop
mount_base a [] = pure tt
mount_base a (m ∷ ms) = do
  best_effort (make_dir m.target)
  mount_or_stop a m.source (at m.target) m.fstype m.flags m.data_text
  mount_base a ms

-- The calls of `mount_persistent_var`, its mount with the target and the flags.
unfoldable pub storage_op : Bool → Op → MountOp
unfolding writable_exec_mount_flags
storage_op allow_write_execute Op.mount_var =
    mount (codes "/dev/vda") (at (codes "/var")) (codes "ext4")
      (writable_exec_mount_flags allow_write_execute) none
storage_op allow_write_execute op = device op

unfoldable pub mount_var_device : Bool → Outcome → Run (Unit {0})
unfolding storage_op
mount_var_device allow_write_execute (ops, ok _) = (map (storage_op allow_write_execute) ops, ok tt)
mount_var_device allow_write_execute (ops, err e) =
    (map (storage_op allow_write_execute) ops, err (storage_stopped e))

unfoldable pub mount_var_dir : MountFeatures → MountAnswers → Run (Unit {0})
unfolding mount_var_device mount_persistent_var mount_or_stop writable_exec_mount_flags
mount_var_dir f a =
    if f.storage_persistent
    then mount_var_device f.allow_write_execute (mount_persistent_var a.storage)
    else mount_or_stop a (codes "tmpfs") (at (codes "/var")) (codes "tmpfs")
        (writable_exec_mount_flags f.allow_write_execute) (some (codes "mode=0755"))

unfoldable pub made : Result DirError (Unit {0}) → Result ℕ (Unit {0})
made (ok _) = ok tt
made (err already_exists) = ok tt
made (err (other_error errno)) = err errno

-- The descriptor of the mount point; O_NOFOLLOW refuses a symlink there.
unfoldable pub prepare_mount_directory : MountAnswers → Text → Run ℕ
unfolding made
prepare_mount_directory a path = do
  attempt (make_dir path) unsafe_mount_point (made a.var_tmp_made)
  attempt (open_dir path) unsafe_mount_point a.var_tmp_opened

unfoldable pub bring_up : Bool → Run (Unit {0})
bring_up true = best_effort init_networking
bring_up false = pure tt

-- What stands after the base mounts.
unfoldable pub mount_rest : MountFeatures → TmpfsConstants → MountAnswers → Text → Run (Unit {0})
unfolding mount_var_dir prepare_mount_directory mount_or_stop tmpfs_option nosuid_nodev_noexec union
    remount_or_stop bring_up
mount_rest f k a payload_dir = do
  best_effort (make_dir (codes "/dev/pts"))
  best_effort (
      mount (codes "devpts") (at (codes "/dev/pts")) (codes "devpts")
        (union nosuid_flag noexec_flag) (some (codes "mode=0620,ptmxmode=0666")))
  best_effort (make_dir (codes "/var"))
  mount_var_dir f a
  var_tmp ← prepare_mount_directory a (codes "/var/tmp")
  var_tmp_data ←
      tmpfs_option k.var_tmp_mb (codes "CARGO_UNIKERNEL_TMPFS_VAR_TMP_MB") (codes "mode=1777")
  mount_or_stop a (codes "tmpfs") (pinned (codes "/var/tmp") var_tmp) (codes "tmpfs")
      nosuid_nodev_noexec (some var_tmp_data)
  attempt (bind_mount payload_dir payload_dir) (bind_failed payload_dir) a.bound
  remount_or_stop a payload_dir (union (union bind_flag nosuid_flag) nodev_flag) []
  bring_up f.networking

unfoldable pub prepare_system_env :
    MountFeatures → TmpfsConstants → MountAnswers → Text → Run (Unit {0})
unfolding tmpfs_option base_mounts mount_base mount_rest
prepare_system_env f k a payload_dir = do
  tmp_data ← tmpfs_option k.tmp_mb (codes "CARGO_UNIKERNEL_TMPFS_TMP_MB") (codes "mode=1777")
  run_data ← tmpfs_option k.run_mb (codes "CARGO_UNIKERNEL_TMPFS_RUN_MB") (codes "mode=0755")
  shm_data ← tmpfs_option k.shm_mb (codes "CARGO_UNIKERNEL_TMPFS_SHM_MB") (codes "mode=1777")
  mount_base a (base_mounts f.allow_write_execute tmp_data run_data shm_data)
  mount_rest f k a payload_dir

-- Best-effort, alone among the remounts.
unfoldable pub seal_rootfs : Run (Unit {0})
seal_rootfs = best_effort (remount (codes "/") rdonly_flag [])

unfoldable pub lockdown_filesystem :
    MountFeatures → TmpfsConstants → MountAnswers → Text → Run (Unit {0})
unfolding remount_or_stop nosuid_nodev_noexec union seal_rootfs proc_remount_data tmpfs_option
    tmp_remount_flags
lockdown_filesystem f k a payload_dir = do
  remount_or_stop a (codes "/sys") (union nosuid_nodev_noexec rdonly_flag) []
  seal_rootfs
  remount_or_stop a (codes "/proc") nosuid_nodev_noexec (proc_remount_data f.proc_subset_pid)
  remount_or_stop a payload_dir (union (union (union bind_flag rdonly_flag) nosuid_flag) nodev_flag)
      []
  tmp_data ← tmpfs_option k.tmp_mb (codes "CARGO_UNIKERNEL_TMPFS_TMP_MB") (codes "mode=1777")
  remount_or_stop a (codes "/tmp") (tmp_remount_flags f.allow_write_execute) tmp_data
  run_data ← tmpfs_option k.run_mb (codes "CARGO_UNIKERNEL_TMPFS_RUN_MB") (codes "mode=0755")
  remount_or_stop a (codes "/run") (union (union nosuid_flag nodev_flag) noexec_flag) run_data
