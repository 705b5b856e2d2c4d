-- ===== src/Guest/Seccomp/Denylist.antt =====
-- The system calls that the denylist of guest/src/seccomp.rs kills, by the names of libc's constants.
use cargo_unikernel.Common.{Bool, true, false, List, [], ◌∷◌, ◌++◌}
use cargo_unikernel.Std.Text.{Text, codes}

-- With the feature `danger-allow-write-execute`, and without.
unfoldable pub write_execute_syscalls : Bool → List Text
write_execute_syscalls true = []
write_execute_syscalls false = codes "SYS_memfd_create" ∷ codes "SYS_memfd_secret" ∷ []

unfoldable pub baseline_syscalls : List Text
baseline_syscalls =
    codes "SYS_ptrace"
    ∷ codes "SYS_process_vm_readv"
    ∷ codes "SYS_process_vm_writev"
    ∷ codes "SYS_init_module"
    ∷ codes "SYS_finit_module"
    ∷ codes "SYS_delete_module"
    ∷ codes "SYS_kexec_load"
    ∷ codes "SYS_kexec_file_load"
    ∷ codes "SYS_mount"
    ∷ codes "SYS_umount2"
    ∷ codes "SYS_pivot_root"
    ∷ codes "SYS_fsopen"
    ∷ codes "SYS_fsconfig"
    ∷ codes "SYS_fsmount"
    ∷ codes "SYS_move_mount"
    ∷ codes "SYS_open_tree"
    ∷ codes "SYS_mount_setattr"
    ∷ codes "SYS_open_by_handle_at"
    ∷ codes "SYS_swapon"
    ∷ codes "SYS_swapoff"
    ∷ codes "SYS_reboot"
    ∷ codes "SYS_iopl"
    ∷ codes "SYS_ioperm"
    ∷ codes "SYS_acct"
    ∷ codes "SYS_add_key"
    ∷ codes "SYS_request_key"
    ∷ codes "SYS_keyctl"
    ∷ codes "SYS_personality"
    ∷ codes "SYS_bpf"
    ∷ codes "SYS_io_uring_setup"
    ∷ codes "SYS_io_uring_enter"
    ∷ codes "SYS_io_uring_register"
    ∷ codes "SYS_unshare"
    ∷ codes "SYS_setns"
    ∷ codes "SYS_perf_event_open"
    ∷ codes "SYS_userfaultfd"
    ∷ codes "SYS_kcmp"
    ∷ codes "SYS_move_pages"
    ∷ codes "SYS_settimeofday"
    ∷ codes "SYS_clock_settime"
    ∷ codes "SYS_clock_adjtime"
    ∷ codes "SYS_adjtimex"
    ∷ codes "SYS_syslog"
    ∷ codes "SYS_modify_ldt"
    ∷ codes "SYS_uselib"
    ∷ codes "SYS_quotactl"
    ∷ codes "SYS_pidfd_getfd"
    ∷ codes "SYS_process_madvise"
    ∷ []

unfoldable pub denied : Bool → List Text
unfolding write_execute_syscalls baseline_syscalls
denied allow_write_execute = baseline_syscalls ++ write_execute_syscalls allow_write_execute
