-- ===== src/Guest/Shutdown/Wipe/Covers.antt =====
-- The mounts of guest/src/mounts.rs against what guest/src/shutdown.rs wipes.
use cargo_unikernel.Common.{
  ◌≡◌, refl, Bool, true, false, List, [], ◌∷◌, ◌++◌, none, some, All, ◌⊎◌, inl, inr, Option-cases,
}
use cargo_unikernel.Std.Text.{Text, codes, text_eq}
use cargo_unikernel.Guest.Mounts.{
  MountOp, make_dir, open_dir, mount, bind_mount, remount, device, init_networking, directory_of,
  MountFeatures, TmpfsConstants, MountAnswers, base_mounts, prepare_system_env,
}
use cargo_unikernel.Guest.Mounts.Prepared.{PrepareCalls, BaseMounted, prepare-Always}
use cargo_unikernel.Guest.Shutdown.Wipe.{
  WipeOp, Ops, before, ShutdownAnswers, wait_for_processes_to_exit, wipe_var, wipe_writable_state,
  force_power_off, kill_wipe_and_power_off, kill_all, scrub,
}

-- The call is among the calls.
abbrev pub Has : WipeOp → Ops → Type 0
Has op [] = ⊥
Has op (o ∷ ops) = (o ≡ op) ⊎ Has op ops

-- If the call mounts a file system in RAM, the wipe scrubs its directory.
abbrev pub Scrubbed : Ops → MountOp → Type 0
Scrubbed ops (mount source target fstype flags options) =
    (text_eq fstype (codes "tmpfs") ≡ false) ⊎ Has (scrub (directory_of target)) ops
Scrubbed ops op = Unit

Has-append : (op : WipeOp) (ops later : Ops) → Has op ops → Has op (ops ++ later)
Has-append op (o ∷ ops) later (inl here) = inl here
Has-append op (o ∷ ops) later (inr there) = inr (Has-append op ops later there)
Has-append op [] later h = absurd h

append-Has : (op : WipeOp) (ops later : Ops) → Has op later → Has op (ops ++ later)
append-Has op [] later h = h
append-Has op (o ∷ ops) later h = inr (append-Has op ops later h)

-- The directories in RAM, of the wipe that the feature compiles.
ram_scrubbed :
    (persistent : Bool)
    → persistent ≡ false
    → Has (scrub (codes "/var")) (wipe_writable_state persistent)
unfolding wipe_writable_state wipe_var
ram_scrubbed true h = absurd (cc)
ram_scrubbed false h = inr (inr (inr (inr (inl refl))))

base-Scrubbed :
    (f : MountFeatures) (tmp run shm : Text)
    → All
        (BaseMounted (Scrubbed (wipe_writable_state f.storage_persistent)))
        (base_mounts f.allow_write_execute tmp run shm)
unfolding base_mounts wipe_writable_state text_eq
base-Scrubbed f tmp run shm = (
  inl refl,
  (
    inl refl,
    (
      inl refl,
      (inr (inr (inl refl)), (inr (inr (inr (inl refl))), (inr (inr (inr (inr (inl refl)))), tt))),
    ),
  ),
)

each_op-Scrubbed :
    (f : MountFeatures) (payload_dir : Text)
    → PrepareCalls (Scrubbed (wipe_writable_state f.storage_persistent)) f payload_dir
unfolding wipe_writable_state text_eq
each_op-Scrubbed f payload_dir = record {
  made_dir = λ path. tt;
  opened_dir = λ path. tt;
  on_device = λ op. tt;
  networking = tt;
  base = base-Scrubbed f;
  devpts = inl refl;
  var_disk = inl refl;
  var_ram = λ ram. inr (ram_scrubbed f.storage_persistent ram);
  var_tmp = λ fd options. inr (inl refl);
  payload_bound = tt;
  payload_set = λ flags options. tt;
}

Scrubbed-within :
    (ops before_it after_it : Ops) (call : MountOp)
    → Scrubbed ops call
    → Scrubbed (before_it ++ (ops ++ after_it)) call
Scrubbed-within ops before_it after_it (mount source target fstype flags options) (inl other) =
    inl other
Scrubbed-within ops before_it after_it (mount source target fstype flags options) (inr has) =
    inr (append-Has _ before_it (ops ++ after_it) (Has-append _ ops after_it has))
Scrubbed-within ops before_it after_it (make_dir path) h = tt
Scrubbed-within ops before_it after_it (open_dir path) h = tt
Scrubbed-within ops before_it after_it (bind_mount source target) h = tt
Scrubbed-within ops before_it after_it (remount target flags options) h = tt
Scrubbed-within ops before_it after_it (device op) h = tt
Scrubbed-within ops before_it after_it init_networking h = tt

each_call_kept :
    (ops before_it after_it : Ops) (calls : List MountOp)
    → All (Scrubbed ops) calls
    → All (Scrubbed (before_it ++ (ops ++ after_it))) calls
each_call_kept ops before_it after_it [] h = tt
each_call_kept ops before_it after_it (call ∷ calls) h = (
  Scrubbed-within ops before_it after_it call h.0,
  each_call_kept ops before_it after_it calls h.1,
)

-- If nothing has entered the wipe before, its deadline can be armed and the wipe comes to its end,
-- then its first call kills all processes, and among the calls after that is a scrub of every
-- directory that `prepare_system_env` has mounted a tmpfs on, with the same features and however far
-- the mounts came.
pub wipe_covers_mounts :
    (f : MountFeatures) (k : TmpfsConstants) (m : MountAnswers) (payload_dir : Text)
    (a : ShutdownAnswers) (ops : Ops)
    → a.started ≡ false
    → a.armed ≡ true
    → kill_wipe_and_power_off f.storage_persistent a ≡ some ops
    → (later : Ops) × (ops ≡ kill_all ∷ later)
      × All (Scrubbed later) (prepare_system_env f k m payload_dir).0
unfolding kill_wipe_and_power_off
wipe_covers_mounts f k m payload_dir a ops fresh armed h =
    elim (Option-cases (wait_for_processes_to_exit a.settle)) [
      | inl waits ↦
          let stuck : before (kill_all ∷ []) none ≡ some ops =
            rw fresh at (rw armed at (rw waits at h)) in
          absurd (cc)
      | inr (settled, e) ↦
          let wipe = wipe_writable_state f.storage_persistent in
          let off = force_power_off a.off_refused a.halt_refused in
          let reached : before (kill_all ∷ []) (some (settled ++ (wipe ++ off))) ≡ some ops =
            rw fresh at (rw armed at (rw e at h)) in
          (
            settled ++ (wipe ++ off),
            (cc),
            each_call_kept wipe settled off _
                (prepare-Always _ f m payload_dir (each_op-Scrubbed f payload_dir) k),
          )
    ]
