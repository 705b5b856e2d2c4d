-- ===== src/Guest/Storage/Mounting.antt =====
-- When `mount_persistent_var` of guest/src/storage.rs mounts a device, and when it erases one.
use cargo_unikernel.Common.{
  ℕ, ◌≡◌, ◌↔◌, ◌⊎◌, inl, inr, refl, sym, ap, ◌∙◌, Bool, true, false, List, [], ◌∷◌, ◌++◌, any,
  if◌then◌else◌, Result, ok, err, Bool-cases, Result-cases,
}
use cargo_unikernel.Guest.Firewall.Bytes.{Bytes}
use cargo_unikernel.Guest.Storage.{
  superblock_is_ours, Op, zero_device, sync_device, run_mke2fs, mount_var, Answers, Outcome,
  StorageFatal, mount_failed, inspect_failed, call, mke2fs_ended, wipe_and_format,
  mount_persistent_var,
}

-- The whole device of that many bytes was zeroed, synced and formatted, each with success.
pub record Erased (a : Answers) (len : ℕ) : Type 0 where
  pub opened : a.opened ≡ ok tt
  pub size : a.size ≡ ok len
  pub wiped : a.wiped len ≡ ok tt
  pub synced : a.synced ≡ ok tt
  pub formatted : a.formatted ≡ ok true

-- The two ways to a mounted `/var`, with their calls.
abbrev pub VarReady : Answers → List Op → Type 0
VarReady a ops =
    (sb : Bytes) × (a.superblock ≡ ok sb)
    × (a.mounted ≡ ok tt)
    × (((superblock_is_ours sb ≡ true) × (ops ≡ mount_var ∷ []))
        ⊎ ((superblock_is_ours sb ≡ false)
            × ((len : ℕ) × Erased a len
                × (ops ≡ zero_device len ∷ sync_device ∷ run_mke2fs ∷ mount_var ∷ []))))

-- A call in a run that ended well has succeeded, and the rest ended well.
abbrev Passed : {A : Type 0} → List Op → Result ℕ A → (A → Outcome) → List Op → Type 0
Passed {A} ops r rest all =
    (a : A) × (later : List Op) × (r ≡ ok a) × (rest a ≡ (later, ok tt)) × (all ≡ ops ++ later)

call-Passed :
    {A : Type 0} (ops all : List Op) (r : Result ℕ A) (fatal : ℕ → StorageFatal)
    (rest : A → Outcome)
    → call ops r fatal rest ≡ (all, ok tt)
    → Passed ops r rest all
unfolding call
call-Passed ops all (ok a) fatal rest h =
    (a, (rest a).0, refl, ap (λ o. ((rest a).0, o.1)) h, sym (ap (λ o. o.0) h))
call-Passed ops all (err errno) fatal rest h = absurd (let failed = ap (λ o. o.1) h in cc)

mke2fs_ended-ok :
    (success : Bool) (rest : Outcome) (all : List Op)
    → mke2fs_ended success rest ≡ (all, ok tt)
    → (success ≡ true) × (rest ≡ (all, ok tt))
unfolding mke2fs_ended
mke2fs_ended-ok true rest all h = (refl, h)
mke2fs_ended-ok false rest all h = absurd (let failed = ap (λ o. o.1) h in cc)

wipe_and_format-Erased :
    (a : Answers) (rest : Outcome) (all : List Op)
    → wipe_and_format a rest ≡ (all, ok tt)
    → (len : ℕ) × (later : List Op) × Erased a len
      × (rest ≡ (later, ok tt))
      × (all ≡ zero_device len ∷ sync_device ∷ run_mke2fs ∷ later)
unfolding wipe_and_format
wipe_and_format-Erased a rest all h =
    let (_, ops, opened, after_open, e) = call-Passed [] all a.opened _ _ h in
    let (len, ops₁, size, after_size, e₁) = call-Passed [] ops a.size _ _ after_open in
    let (_, ops₂, wiped, after_wipe, e₂) =
      call-Passed (zero_device len ∷ []) ops₁ (a.wiped len) _ _ after_size in
    let (_, ops₃, synced, after_sync, e₃) =
      call-Passed (sync_device ∷ []) ops₂ a.synced _ _ after_wipe in
    let (success, ops₄, formatted, after_format, e₄) =
      call-Passed (run_mke2fs ∷ []) ops₃ a.formatted _ _ after_sync in
    let (good, ended) = mke2fs_ended-ok success rest ops₄ after_format in
    (
      len,
      ops₄,
      record {
        opened = opened;
        size = size;
        wiped = wiped;
        synced = synced;
        formatted = rw good at formatted;
      },
      ended,
      e ∙ (e₁ ∙ (e₂ ∙ ap (◌∷◌ (zero_device len)) (e₃ ∙ ap (◌∷◌ sync_device) e₄))),
    )

-- The mount, which comes last.
abbrev mounting : Answers → Outcome
mounting a = call (mount_var ∷ []) a.mounted mount_failed (λ _. ([], ok tt))

mounting-Passed :
    (a : Answers) (later : List Op)
    → mounting a ≡ (later, ok tt)
    → (a.mounted ≡ ok tt) × (later ≡ mount_var ∷ [])
mounting-Passed a later h =
    let (_, rest, mounted, nothing, e) =
      call-Passed (mount_var ∷ []) later a.mounted mount_failed (λ _. ([], ok tt)) h in
    (mounted, e ∙ ap (λ o. mount_var ∷ o.0) (sym nothing))

by_superblock :
    (a : Answers) (sb : Bytes) (all : List Op)
    → a.superblock ≡ ok sb
    → (if superblock_is_ours sb then mounting a else wipe_and_format a (mounting a)) ≡ (all, ok tt)
    → VarReady a all
by_superblock a sb all read h = elim (Bool-cases (superblock_is_ours sb)) [
  | inl ours ↦
      let (mounted, e) = mounting-Passed a all (rw ours at h) in (sb, read, mounted, inl (ours, e))
  | inr foreign ↦
      let (len, later, erased, ended, e) =
        wipe_and_format-Erased a (mounting a) all (rw foreign at h) in
      let (mounted, e₁) = mounting-Passed a later ended in
      (
        sb,
        read,
        mounted,
        inr (
          foreign,
          (len, erased, e ∙ ap (λ ops. zero_device len ∷ sync_device ∷ run_mke2fs ∷ ops) e₁),
        ),
      )
]

mounted_so : (a : Answers) (ops : List Op) → mount_persistent_var a ≡ (ops, ok tt) → VarReady a ops
unfolding mount_persistent_var
mounted_so a ops h =
    let (sb, later, read, ended, e) = call-Passed [] ops a.superblock inspect_failed _ h in
    by_superblock a sb ops read (ended ∙ ap (λ o. (o, ok tt)) (sym e))

mounts_so : (a : Answers) (ops : List Op) → VarReady a ops → mount_persistent_var a ≡ (ops, ok tt)
unfolding mount_persistent_var wipe_and_format mke2fs_ended call
mounts_so a ops (sb, read, mounted, inl (ours, e)) = rw (read, ours, mounted, e) refl
mounts_so a ops (sb, read, mounted, inr (foreign, (len, erased, e))) =
    rw
      (
        read, foreign, erased.opened, erased.size, erased.wiped, erased.synced, erased.formatted,
        mounted, e,
      )
      refl

-- The boot mounts `/var` with certain calls if, and only if, the superblock is read, the mount
-- succeeds, and either the volume is this image's and the mount is the only call, or it is another's
-- and the whole device was before zeroed, synced and formatted, in this order, and each of
-- these succeeded.
pub var_mounted_iff :
    (a : Answers) (ops : List Op) → (mount_persistent_var a ≡ (ops, ok tt)) ↔ VarReady a ops
var_mounted_iff a ops = (mounted_so a ops, mounts_so a ops)

-- The call writes to the device.
abbrev pub is_erasing : Op → Bool
is_erasing (zero_device len) = true
is_erasing sync_device = true
is_erasing run_mke2fs = true
is_erasing mount_var = false

mounting_keeps : (a : Answers) → any is_erasing (mounting a).0 ≡ false
unfolding call any
mounting_keeps a = elim (Result-cases a.mounted) [
  | inl (u, e) ↦ rw e refl
  | inr (errno, e) ↦ rw e refl
]

-- However the calls end, the boot makes one that writes to the device only if the superblock was
-- read and is not this image's: an own volume and an unreadable device keep their data.
pub foreign_only_erased :
    (a : Answers)
    → any is_erasing (mount_persistent_var a).0 ≡ true
    → (sb : Bytes) × (a.superblock ≡ ok sb) × (superblock_is_ours sb ≡ false)
unfolding mount_persistent_var call any
foreign_only_erased a h = elim (Result-cases a.superblock) [
  | inr (errno, e) ↦ let nothing : false ≡ true = rw e at h in absurd (cc)
  | inl (sb, e) ↦ elim (Bool-cases (superblock_is_ours sb)) [
    | inr foreign ↦ (sb, e, foreign)
    | inl ours ↦
        let kept = mounting_keeps a in
        let erased : any is_erasing (mounting a).0 ≡ true = rw ours at (rw e at h) in absurd (cc)
  ]
]
