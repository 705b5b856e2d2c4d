-- ===== src/Guest/Storage.antt =====
-- guest/src/storage.rs: whether `/dev/vda` is this image's volume, and the way to a mounted
-- `/var`. What the system calls and `mke2fs` answer is the input; the calls that change the
-- device or the mounts are recorded in order.
pub mod Marker
pub mod Mounting
use cargo_unikernel.Common.{
  ℕ, ◌+◌, ◌-◌, Bool, true, false, ◌&&◌, not, ◌==◌, if◌then◌else◌, List, [], ◌∷◌, ◌++◌, take, drop,
  Result, ok, err, Option, none, some,
}
use cargo_unikernel.Std.Text.{codes, text_eq}
use cargo_unikernel.Guest.Firewall.Bytes.{Bytes, of_le16}

abbrev pub volume_label : Bytes
volume_label = codes "CUKINIT"

abbrev pub sb_magic_offset : ℕ
sb_magic_offset = 0x38

abbrev pub sb_label_offset : ℕ
sb_label_offset = 0x78

abbrev pub sb_label_len : ℕ
sb_label_len = 16

abbrev pub ext4_magic : ℕ
ext4_magic = 0xEF53

abbrev pub first_byte : Bytes → ℕ
first_byte [] = 0
first_byte (b ∷ _) = b

-- `sb[i]`, of a fixed array that is long enough.
abbrev pub byte_at : ℕ → Bytes → ℕ
byte_at n sb = first_byte (drop n sb)

-- `iter().all(|&b| b == 0)`.
unfoldable pub all_zero : Bytes → Bool
all_zero [] = true
all_zero (b ∷ bs) = b == 0 && all_zero bs

unfoldable pub superblock_is_ours : Bytes → Bool
superblock_is_ours sb =
    if not (of_le16 (byte_at sb_magic_offset sb) (byte_at (sb_magic_offset + 1) sb) == ext4_magic)
    then false
    else (let label = take sb_label_len (drop sb_label_offset sb) in
        text_eq (take 7 label) volume_label && all_zero (drop 7 label))

-- The zeroing has the number of bytes.
pub data Op : Type 0 where
  zero_device : ℕ → Op
  sync_device run_mke2fs mount_var : Op

pub data StorageFatal : Type 0 where
  inspect_failed open_failed size_failed wipe_failed sync_failed mke2fs_failed mount_failed :
      ℕ → StorageFatal
  mke2fs_exited : StorageFatal

-- The answers to the calls that `mount_persistent_var` makes: the superblock's first bytes, the
-- device opened to write, its size, the zeros written (for that size), `sync_all`, the exit of
-- `mke2fs` (whether it was success), and the mount.
pub record Answers : Type 0 where
  pub superblock : Result ℕ Bytes
  pub opened : Result ℕ (Unit {0})
  pub size : Result ℕ ℕ
  pub wiped : ℕ → Result ℕ (Unit {0})
  pub synced : Result ℕ (Unit {0})
  pub formatted : Result ℕ Bool
  pub mounted : Result ℕ (Unit {0})

-- What was done, and how it ended.
abbrev pub Outcome : Type 0
Outcome = List Op × Result StorageFatal (Unit {0})

-- A call that the rest waits for. It is recorded before it is made.
unfoldable pub call {ℓ} :
    {A : Type ℓ} → List Op → Result ℕ A → (ℕ → StorageFatal) → (A → Outcome) → Outcome
call ops (err errno) fatal rest = (ops, err (fatal errno))
call ops (ok a) fatal rest = let r = rest a in (ops ++ r.0, r.1)

unfoldable pub mke2fs_ended : Bool → Outcome → Outcome
mke2fs_ended true rest = rest
mke2fs_ended false rest = ([], err mke2fs_exited)

unfoldable pub wipe_and_format : Answers → Outcome → Outcome
unfolding call mke2fs_ended
wipe_and_format a rest = call [] a.opened open_failed (λ _. call [] a.size size_failed (λ len.
    call (zero_device len ∷ []) (a.wiped len) wipe_failed (λ _.
      call (sync_device ∷ []) a.synced sync_failed (λ _.
        call (run_mke2fs ∷ []) a.formatted mke2fs_failed (λ success. mke2fs_ended success rest)))))

unfoldable pub mount_persistent_var : Answers → Outcome
unfolding wipe_and_format call
mount_persistent_var a = call [] a.superblock inspect_failed (λ sb.
    let mounting = call (mount_var ∷ []) a.mounted mount_failed (λ _. ([], ok tt)) in
    if superblock_is_ours sb then mounting else wipe_and_format a mounting)
