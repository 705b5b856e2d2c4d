-- ===== src/Guest/Mounts/Sealed.antt =====
-- What the mounts of guest/src/mounts.rs leave writable and executable once the boot is over.
use cargo_unikernel.Common.{
  ◌≡◌, refl, Bool, true, false, List, [], ◌∷◌, ◌++◌, ok, All, ◌⊎◌, inl, inr,
}
use cargo_unikernel.Std.Text.{Text, codes}
use cargo_unikernel.Guest.Trace.Laws.{
  Ends, attempt-Ends, ended, attempt_bind-Ends, demand_bind-Ends, best_effort_bind-Ends,
}
use cargo_unikernel.Guest.Mounts.Prepared.{PrepareCalls, BaseMounted, prepare-Always}
use cargo_unikernel.Guest.Mounts.{
  MountFlags, MountOp, mount, bind_mount, remount, directory_of, MountFeatures, TmpfsConstants,
  MountAnswers, tmpfs_option, remount_or_stop, base_mounts, prepare_system_env, seal_rootfs,
  lockdown_filesystem, nosuid_nodev_noexec, union, writable_exec_mount_flags, tmp_remount_flags,
  proc_remount_data, tmpfs_data, bad_constant, nosuid_flag, noexec_flag, nodev_flag, rdonly_flag,
  bind_flag,
}

-- A file system that may be written to executes nothing, and setuid bits count nowhere; but for
-- `/tmp` and `/var` with the feature `danger-allow-write-execute`, and for the root's setuid bits.
abbrev pub Safe : Bool → Text → MountFlags → Type 0
Safe allow_write_execute dir flags =
    ((flags.noexec ≡ true)
      ⊎ ((flags.rdonly ≡ true)
          ⊎ ((allow_write_execute ≡ true) × ((dir ≡ codes "/tmp") ⊎ (dir ≡ codes "/var")))))
    × ((flags.nosuid ≡ true) ⊎ (dir ≡ codes "/"))

abbrev pub SafeOp : Bool → MountOp → Type 0
SafeOp allow (mount source target fstype flags options) = Safe allow (directory_of target) flags
SafeOp allow (remount target flags options) = Safe allow target flags
SafeOp allow (bind_mount source target) = ⊥
SafeOp allow op = Unit

-- The directory whose flags a call sets.
abbrev pub Sets : Text → MountOp → Type 0
Sets dir (mount source target fstype flags options) = directory_of target ≡ dir
Sets dir (remount target flags options) = target ≡ dir
Sets dir (bind_mount source target) = target ≡ dir
Sets dir op = ⊥

abbrev pub SetAgain : Text → List MountOp → Type 0
SetAgain dir [] = ⊥
SetAgain dir (op ∷ ops) = Sets dir op ⊎ SetAgain dir ops

-- Each call is safe, or a later one sets the flags of its directory.
abbrev pub Settled : Bool → List MountOp → Type 0
Settled allow [] = Unit
Settled allow (op ∷ ops) =
    (SafeOp allow op ⊎ ((dir : Text) × Sets dir op × SetAgain dir ops)) × Settled allow ops

-- What may precede a last call on `dir`.
abbrev SafeOr : Bool → Text → MountOp → Type 0
SafeOr allow dir op = SafeOp allow op ⊎ Sets dir op

SetAgain-append :
    (dir : Text) (ops later : List MountOp) → SetAgain dir later → SetAgain dir (ops ++ later)
SetAgain-append dir [] later h = h
SetAgain-append dir (op ∷ ops) later h = inr (SetAgain-append dir ops later h)

Settled-append :
    (allow : Bool) (dir : Text) (ops later : List MountOp)
    → All (SafeOr allow dir) ops
    → SetAgain dir later
    → Settled allow later
    → Settled allow (ops ++ later)
Settled-append allow dir [] later h again s = s
Settled-append allow dir (op ∷ ops) later (inl safe, hs) again s =
    (inl safe, Settled-append allow dir ops later hs again s)
Settled-append allow dir (op ∷ ops) later (inr sets, hs) again s = (
  inr (dir, sets, SetAgain-append dir ops later again),
  Settled-append allow dir ops later hs again s,
)

no_exec : (allow : Bool) (dir : Text) → Safe allow dir nosuid_nodev_noexec
unfolding nosuid_nodev_noexec union
no_exec allow dir = (inl refl, inl refl)

device_flags : (allow : Bool) (dir : Text) → Safe allow dir (union nosuid_flag noexec_flag)
unfolding union
device_flags allow dir = (inl refl, inl refl)

scratch_flags :
    (allow : Bool) (dir : Text)
    → ((dir ≡ codes "/tmp") ⊎ (dir ≡ codes "/var"))
    → Safe allow dir (writable_exec_mount_flags allow)
unfolding writable_exec_mount_flags union
scratch_flags true dir h = (inr (inr (refl, h)), inl refl)
scratch_flags false dir h = (inl refl, inl refl)

base-Safe :
    (allow : Bool) (payload_dir tmp run shm : Text)
    → All (BaseMounted (SafeOr allow payload_dir)) (base_mounts allow tmp run shm)
unfolding base_mounts
base-Safe allow payload_dir tmp run shm = (
  inl (no_exec allow _),
  (
    inl (no_exec allow _),
    (
      inl (device_flags allow _),
      (
        inl (scratch_flags allow _ (inl refl)),
        (inl (no_exec allow _), (inl (no_exec allow _), tt)),
      ),
    ),
  ),
)

-- What the calls of `prepare_system_env` are: safe, or on the payload's directory.
each_op-SafeOr :
    (f : MountFeatures) (payload_dir : Text)
    → PrepareCalls (SafeOr f.allow_write_execute payload_dir) f payload_dir
each_op-SafeOr f payload_dir = record {
  made_dir = λ path. inl tt;
  opened_dir = λ path. inl tt;
  on_device = λ op. inl tt;
  networking = inl tt;
  base = base-Safe f.allow_write_execute payload_dir;
  devpts = inl (device_flags _ _);
  var_disk = inl (scratch_flags _ _ (inr refl));
  var_ram = λ ram. inl (scratch_flags _ _ (inr refl));
  var_tmp = λ fd options. inl (no_exec _ _);
  payload_bound = inr refl;
  payload_set = λ flags options. inr refl;
}

module _ (f : MountFeatures) (a : MountAnswers) (payload_dir : Text) where
  -- What lockdown makes of a good boot: the payload's directory is set again, and all is settled.
  abbrev Locked : List MountOp → Unit {0} → Type 0
  Locked ops _ = SetAgain payload_dir ops × Settled f.allow_write_execute ops

  -- The calls of a lockdown that ends well.
  lockdown_ops :
      (proc_data tmp_data run_data : Text)
      → Locked
          (remount (codes "/sys") (union nosuid_nodev_noexec rdonly_flag) []
            ∷ remount (codes "/") rdonly_flag []
            ∷ remount (codes "/proc") nosuid_nodev_noexec proc_data
            ∷ remount payload_dir
                (union (union (union bind_flag rdonly_flag) nosuid_flag) nodev_flag)
                []
            ∷ remount (codes "/tmp") (tmp_remount_flags f.allow_write_execute) tmp_data
            ∷ remount (codes "/run") (union (union nosuid_flag nodev_flag) noexec_flag) run_data
            ∷ [])
          tt
  unfolding nosuid_nodev_noexec union tmp_remount_flags
  lockdown_ops proc_data tmp_data run_data = (
    inr (inr (inr (inl refl))),
    (
      inl (inl refl, inl refl),
      (
        inl (inr (inl refl), inr refl),
        (
          inl (inl refl, inl refl),
          (
            inl (inr (inl refl), inl refl),
            (
              inl (scratch_flags f.allow_write_execute _ (inl refl)),
              (inl (inl refl, inl refl), tt),
            ),
          ),
        ),
      ),
    ),
  )

  lockdown-Locked : (k : TmpfsConstants) → Ends Locked (lockdown_filesystem f k a payload_dir)
  unfolding lockdown_filesystem remount_or_stop seal_rootfs tmpfs_option proc_remount_data
  lockdown-Locked k = attempt_bind-Ends _ _ (a.remounted (codes "/sys")) _ (λ _ _.
      best_effort_bind-Ends _ _ (
        attempt_bind-Ends _ _ (a.remounted (codes "/proc")) _ (λ _ _.
          attempt_bind-Ends _ _ (a.remounted payload_dir) _ (λ _ _.
            demand_bind-Ends bad_constant
              (tmpfs_data k.tmp_mb (codes "CARGO_UNIKERNEL_TMPFS_TMP_MB") (codes "mode=1777")) _
              (λ tmp_data _. attempt_bind-Ends _ _ (a.remounted (codes "/tmp")) _ (λ _ _.
                demand_bind-Ends bad_constant
                  (tmpfs_data k.run_mb (codes "CARGO_UNIKERNEL_TMPFS_RUN_MB") (codes "mode=0755")) _
                  (λ run_data _. attempt-Ends _ _ (a.remounted (codes "/run")) (λ _ _.
                    lockdown_ops (proc_remount_data f.proc_subset_pid) tmp_data run_data))))))))

  -- If the mounts and the lockdown both end well, then after them every directory that they mounted,
  -- bound or remounted has, by the last call on it, no execution unless it is read-only, and no
  -- setuid bits. With the feature `danger-allow-write-execute` that is but for execution in `/tmp`
  -- and `/var`. Of the root, which is remounted as far as that succeeds, it is the first that holds.
  pub lockdown-Settled :
      (k : TmpfsConstants)
      → (prepare_system_env f k a payload_dir).1 ≡ ok tt
      → (lockdown_filesystem f k a payload_dir).1 ≡ ok tt
      → Settled f.allow_write_execute
          ((prepare_system_env f k a payload_dir).0 ++ (lockdown_filesystem f k a payload_dir).0)
  lockdown-Settled k prepared locked =
      let last = ended tt locked (lockdown-Locked k) in
      Settled-append f.allow_write_execute payload_dir (prepare_system_env f k a payload_dir).0 _
        (prepare-Always _ f a payload_dir (each_op-SafeOr f payload_dir) k) last.0 last.1
