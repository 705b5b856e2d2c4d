-- ===== src/Guest/Mounts/Calls.antt =====
-- The calls of guest/src/mounts.rs and their arguments.
use cargo_unikernel.Common.{
  ℕ, Bool, true, false, ◌||◌, ◌++◌, Option, none, some, if◌then◌else◌, Result, ok, err, ◌>>=◌,
}
use cargo_unikernel.Std.Text.{Text, codes, contains}
use cargo_unikernel.Std.Decimal.{show}
use cargo_unikernel.Guest.Baked.{Fatal, baked, u64_max}
use cargo_unikernel.Guest.Storage.{Op, StorageFatal}

-- A set of the flags of `mount(2)` that the source uses.
pub record MountFlags : Type 0 where
  pub rdonly : Bool
  pub nosuid : Bool
  pub nodev : Bool
  pub noexec : Bool
  pub bind : Bool

unfoldable pub union : MountFlags → MountFlags → MountFlags
union a b = record {
  rdonly = a.rdonly || b.rdonly;
  nosuid = a.nosuid || b.nosuid;
  nodev = a.nodev || b.nodev;
  noexec = a.noexec || b.noexec;
  bind = a.bind || b.bind;
}

abbrev no_flags : MountFlags
no_flags = record { rdonly = false; nosuid = false; nodev = false; noexec = false; bind = false }

abbrev pub rdonly_flag : MountFlags
rdonly_flag = record no_flags { rdonly = true }

abbrev pub nosuid_flag : MountFlags
nosuid_flag = record no_flags { nosuid = true }

abbrev pub nodev_flag : MountFlags
nodev_flag = record no_flags { nodev = true }

abbrev pub noexec_flag : MountFlags
noexec_flag = record no_flags { noexec = true }

abbrev pub bind_flag : MountFlags
bind_flag = record no_flags { bind = true }

unfoldable pub nosuid_nodev_noexec : MountFlags
unfolding union
nosuid_nodev_noexec = union (union nosuid_flag nodev_flag) noexec_flag

-- With the feature `danger-allow-write-execute`, and without.
unfoldable pub writable_exec_mount_flags : Bool → MountFlags
unfolding union
writable_exec_mount_flags true = union nosuid_flag nodev_flag
writable_exec_mount_flags false = union (union nosuid_flag nodev_flag) noexec_flag

unfoldable pub tmp_remount_flags : Bool → MountFlags
unfolding writable_exec_mount_flags
tmp_remount_flags allow_write_execute = writable_exec_mount_flags allow_write_execute

-- With the feature `proc-subset-pid`, and without.
unfoldable pub proc_remount_data : Bool → Text
proc_remount_data true = codes "hidepid=2,subset=pid"
proc_remount_data false = codes "hidepid=2"

unfoldable pub tmpfs_data : Text → Text → Text → Result Fatal Text
tmpfs_data mb what rest = do
  n ← baked u64_max mb what
  ok (codes "size=" ++ (show n ++ (codes "m," ++ rest)))

-- A directory by its path, or by `/proc/self/fd/` and a descriptor that was opened on it.
pub data Target : Type 0 where
  at : Text → Target
  pinned : Text → ℕ → Target

unfoldable pub target_text : Target → Text
target_text (at path) = path
target_text (pinned path fd) = codes "/proc/self/fd/" ++ show fd

abbrev pub directory_of : Target → Text
directory_of (at path) = path
directory_of (pinned path fd) = path

pub data MountOp : Type 0 where
  make_dir : Text → MountOp
  open_dir : Text → MountOp
  mount : Text → Target → Text → MountFlags → Option Text → MountOp
  bind_mount : Text → Text → MountOp
  remount : Text → MountFlags → Text → MountOp
  device : Op → MountOp
  init_networking : MountOp

-- `mount` fails before the call if its data has a NUL.
pub data MountError : Type 0 where
  nul_in_data : MountError
  os_error : ℕ → MountError

pub data DirError : Type 0 where
  already_exists : DirError
  other_error : ℕ → DirError

pub data MountFatal : Type 0 where
  bad_constant : Fatal → MountFatal
  mount_failed : Text → MountError → MountFatal
  storage_stopped : StorageFatal → MountFatal
  unsafe_mount_point : ℕ → MountFatal
  bind_failed remount_failed : Text → ℕ → MountFatal

unfoldable pub mount_data : Option Text → Result MountError (Unit {0})
mount_data none = ok tt
mount_data (some s) = if contains 0 s then err nul_in_data else ok tt
