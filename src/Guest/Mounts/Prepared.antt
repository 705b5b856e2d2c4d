-- ===== src/Guest/Mounts/Prepared.antt =====
-- A property of every call of `prepare_system_env` in guest/src/mounts.rs, from its calls one by one.
use cargo_unikernel.Common.{
  ℕ, ◌≡◌, Bool, true, false, List, [], ◌∷◌, map, Option, none, some, ok, err, All, Bool-cases, inl,
  inr,
}
use cargo_unikernel.Std.Text.{Text, codes}
use cargo_unikernel.Guest.Storage.{Op, Outcome, mount_persistent_var}
use cargo_unikernel.Guest.Trace.{demand, attempt}
use cargo_unikernel.Guest.Trace.Laws.{
  Always, attempt-Always, demand-Always, bind-Always, best_effort-Always, best_effort_bind-Always,
}
use cargo_unikernel.Guest.Mounts.{
  MountFlags, MountOp, make_dir, open_dir, mount, bind_mount, remount, device, init_networking,
  Target, at, pinned, directory_of, MountFeatures, TmpfsConstants, MountAnswers, BaseMount,
  tmpfs_option, mount_or_stop, remount_or_stop, base_mounts, mount_base, storage_op,
  mount_var_device, mount_var_dir, prepare_mount_directory, bring_up, mount_rest,
  prepare_system_env, nosuid_nodev_noexec, union, writable_exec_mount_flags, tmpfs_data, mount_data,
  bad_constant, mount_failed, nosuid_flag, noexec_flag,
}

module _ (P : MountOp → Type 0) where
  abbrev pub BaseMounted : BaseMount → Type 0
  BaseMounted m = P (mount m.source (at m.target) m.fstype m.flags m.data_text)

  -- What is to be shown of the calls.
  pub record PrepareCalls (f : MountFeatures) (payload_dir : Text) : Type 0 where
    pub made_dir : (path : Text) → P (make_dir path)
    pub opened_dir : (path : Text) → P (open_dir path)
    pub on_device : (op : Op) → P (device op)
    pub networking : P init_networking
    pub base :
        (tmp run shm : Text) → All BaseMounted (base_mounts f.allow_write_execute tmp run shm)
    pub devpts : P (
        mount
          (codes "devpts")
          (at (codes "/dev/pts"))
          (codes "devpts")
          (union nosuid_flag noexec_flag)
          (some (codes "mode=0620,ptmxmode=0666")))
    pub var_disk : P (
        mount
          (codes "/dev/vda")
          (at (codes "/var"))
          (codes "ext4")
          (writable_exec_mount_flags f.allow_write_execute)
          none)
    pub var_ram :
        f.storage_persistent ≡ false
        → P (
            mount
              (codes "tmpfs")
              (at (codes "/var"))
              (codes "tmpfs")
              (writable_exec_mount_flags f.allow_write_execute)
              (some (codes "mode=0755")))
    pub var_tmp :
        (fd : ℕ) (options : Text)
        → P (
            mount
              (codes "tmpfs")
              (pinned (codes "/var/tmp") fd)
              (codes "tmpfs")
              nosuid_nodev_noexec
              (some options))
    pub payload_bound : P (bind_mount payload_dir payload_dir)
    pub payload_set : (flags : MountFlags) (options : Text) → P (remount payload_dir flags options)

  tmpfs_option-Always : (mb what rest : Text) → Always P (tmpfs_option mb what rest)
  unfolding tmpfs_option
  tmpfs_option-Always mb what rest = demand-Always P bad_constant (tmpfs_data mb what rest)

  mount_or_stop-Always :
      (a : MountAnswers) (source : Text) (target : Target) (fstype : Text) (flags : MountFlags)
      (options : Option Text)
      → P (mount source target fstype flags options)
      → Always P (mount_or_stop a source target fstype flags options)
  unfolding mount_or_stop
  mount_or_stop-Always a source target fstype flags options h =
      bind-Always P (demand (mount_failed (directory_of target)) (mount_data options)) _
        (demand-Always P _ (mount_data options))
        (λ _.
          attempt-Always P (mount source target fstype flags options) _
            (a.mounted (directory_of target)) h)

  mount_base-Always :
      (a : MountAnswers) (mounts : List BaseMount)
      → ((path : Text) → P (make_dir path))
      → All BaseMounted mounts
      → Always P (mount_base a mounts)
  unfolding mount_base
  mount_base-Always a [] dirs h = tt
  mount_base-Always a (m ∷ ms) dirs h = best_effort_bind-Always P _ _ (dirs m.target) (
      bind-Always P (mount_or_stop a m.source (at m.target) m.fstype m.flags m.data_text) _
        (mount_or_stop-Always a m.source (at m.target) m.fstype m.flags m.data_text h.0)
        (λ _. mount_base-Always a ms dirs h.1))

  module _ (f : MountFeatures) (a : MountAnswers) (payload_dir : Text)
      (calls : PrepareCalls f payload_dir) where
    storage_op-Always : (op : Op) → P (storage_op f.allow_write_execute op)
    unfolding storage_op
    storage_op-Always Op.mount_var = calls.var_disk
    storage_op-Always (Op.zero_device len) = calls.on_device (Op.zero_device len)
    storage_op-Always Op.sync_device = calls.on_device Op.sync_device
    storage_op-Always Op.run_mke2fs = calls.on_device Op.run_mke2fs

    storage_ops-Always : (ops : List Op) → All P (map (storage_op f.allow_write_execute) ops)
    storage_ops-Always [] = tt
    storage_ops-Always (op ∷ ops) = (storage_op-Always op, storage_ops-Always ops)

    mount_var_device-Always : (o : Outcome) → Always P (mount_var_device f.allow_write_execute o)
    unfolding mount_var_device
    mount_var_device-Always (ops, ok _) = storage_ops-Always ops
    mount_var_device-Always (ops, err e) = storage_ops-Always ops

    mount_var_dir-Always : Always P (mount_var_dir f a)
    unfolding mount_var_dir
    mount_var_dir-Always = elim (Bool-cases f.storage_persistent) [
      | inl persistent ↦ rw persistent (mount_var_device-Always (mount_persistent_var a.storage))
      | inr ram ↦ rw ram (
          mount_or_stop-Always a (codes "tmpfs") (at (codes "/var")) (codes "tmpfs")
            (writable_exec_mount_flags f.allow_write_execute) (some (codes "mode=0755"))
            (calls.var_ram ram))
    ]

    bring_up-Always : (on : Bool) → Always P (bring_up on)
    unfolding bring_up
    bring_up-Always true = best_effort-Always P _ _ calls.networking
    bring_up-Always false = tt

    var_tmp_dir-Always : Always P (prepare_mount_directory a (codes "/var/tmp"))
    unfolding prepare_mount_directory
    var_tmp_dir-Always =
        bind-Always P (attempt _ _ _) _ (attempt-Always P _ _ _ (calls.made_dir _))
          (λ _. attempt-Always P _ _ a.var_tmp_opened (calls.opened_dir _))

    payload-Always : (flags : MountFlags) → Always P (remount_or_stop a payload_dir flags [])
    unfolding remount_or_stop
    payload-Always flags =
        attempt-Always P _ _ (a.remounted payload_dir) (calls.payload_set flags [])

    mount_rest-Always : (k : TmpfsConstants) → Always P (mount_rest f k a payload_dir)
    unfolding mount_rest
    mount_rest-Always k = best_effort_bind-Always P _ _ (calls.made_dir _) (
        best_effort_bind-Always P _ _ calls.devpts (
          best_effort_bind-Always P _ _ (calls.made_dir _) (
            bind-Always P (mount_var_dir f a) _ mount_var_dir-Always (λ _.
              bind-Always P (prepare_mount_directory a (codes "/var/tmp")) _ var_tmp_dir-Always
                (λ fd.
                  bind-Always P (tmpfs_option k.var_tmp_mb _ _) _
                    (tmpfs_option-Always k.var_tmp_mb _ _)
                    (λ options.
                      bind-Always P
                        (mount_or_stop a (codes "tmpfs") (pinned (codes "/var/tmp") fd)
                          (codes "tmpfs") nosuid_nodev_noexec (some options))
                        _
                        (mount_or_stop-Always a (codes "tmpfs") (pinned (codes "/var/tmp") fd)
                          (codes "tmpfs") nosuid_nodev_noexec (some options)
                          (calls.var_tmp fd options))
                        (λ _.
                          bind-Always P (attempt _ _ a.bound) _
                            (attempt-Always P _ _ a.bound calls.payload_bound)
                            (λ _.
                              bind-Always P (remount_or_stop a payload_dir _ []) _
                                (payload-Always _) (λ _. bring_up-Always f.networking)))))))))

    pub prepare-Always : (k : TmpfsConstants) → Always P (prepare_system_env f k a payload_dir)
    unfolding prepare_system_env
    prepare-Always k =
        bind-Always P (tmpfs_option k.tmp_mb _ _) _ (tmpfs_option-Always k.tmp_mb _ _) (λ tmp.
          bind-Always P (tmpfs_option k.run_mb _ _) _ (tmpfs_option-Always k.run_mb _ _) (λ run.
            bind-Always P (tmpfs_option k.shm_mb _ _) _ (tmpfs_option-Always k.shm_mb _ _) (λ shm.
              bind-Always P (mount_base a (base_mounts f.allow_write_execute tmp run shm)) _
                (mount_base-Always a (base_mounts f.allow_write_execute tmp run shm) calls.made_dir
                  (calls.base tmp run shm))
                (λ _. mount_rest-Always k))))
