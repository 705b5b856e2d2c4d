-- ===== src/Guest/Shutdown/Scrub.antt =====
-- `scrub_open_dir` and `overwrite_file` of guest/src/shutdown.rs on a tree of directory entries.
-- The processes are gone by then, so the tree changes by the scrub alone. An entry has the name
-- and the type that `readdir` reports, and the inode that an open finds.
pub mod Cleared
pub mod Removed
use cargo_unikernel.Common.{
  ℕ, suc, drop, ◌+◌, ◌<◌, Bool, true, false, ◌||◌, ◌&&◌, not, leb, if◌then◌else◌, List, [], ◌∷◌,
  ◌++◌, length, Option, none, some, Result, ok, err,
}
use cargo_unikernel.Std.Text.{Text, codes, text_eq}
use cargo_unikernel.Guest.Firewall.Bytes.{Bytes}
use cargo_unikernel.Guest.Zeros.{zeros}

pub data FileType : Type 0 where
  directory_type regular_type symlink_type other_type unknown_type : FileType

-- What the overwriting of a file meets: whether `metadata` answers, how many bytes can be written
-- before a write fails, and whether `sync_data` succeeds.
pub record Writing : Type 0 where
  pub has_metadata : Bool
  pub room : ℕ
  pub syncs : Bool

mutual
  -- A file has its contents, whether it opens for writing, what an overwriting meets, and whether
  -- `unlinkat` removes its entry; a directory whether it opens, its entries, and whether
  -- `unlinkat` removes it once it is empty, which it does not where another file system is
  -- mounted; a symlink whether it can be unlinked; a device or a FIFO whether it opens and can be
  -- unlinked. No inode has two entries.
  pub data Node : Type 0 where
    file : Bytes → Bool → Writing → Bool → Node
    directory : Bool → Entries → Bool → Node
    symlink : Bool → Node
    special : Bool → Bool → Node

  pub data Entries : Type 0 where
    end : Entries
    entry : Text → FileType → Node → Entries → Entries

-- Of a file that was unlinked: the contents before the scrub came to it, and those that it had
-- when it went.
abbrev pub Freed : Type 0
Freed = Bytes × Bytes

-- What is left of an entry or a directory, and the files that were unlinked.
abbrev pub Left : Type 0 → Type 0
Left A = A × List Freed

-- What a file holds after `overwrite_file`, and whether that succeeded: zeros in place, of the
-- file's length, or as many as `write_zeros` gets written.
unfoldable pub overwrite_file : Bytes → Writing → Bytes × Bool
overwrite_file contents w =
    if not w.has_metadata
    then (contents, false)
    else if leb (length contents) w.room
    then (zeros (length contents), w.syncs)
    else (zeros w.room ++ drop w.room contents, false)

unfoldable pub is_dot : Text → Bool
is_dot name = text_eq name (codes ".") || text_eq name (codes "..")

-- `rmdir` takes a directory that has no entries but its own two.
unfoldable pub removable : Entries → Bool
removable end = true
removable (entry name _ _ rest) = is_dot name && removable rest

-- `unlinkat` with REMOVEDIR, of a directory that was opened.
unfoldable pub remove_dir : Bool → Left Entries → Left (Option Node)
remove_dir removes (left, freed) =
    (if removable left && removes then none else some (directory true left removes), freed)

-- What is left of an inode whose unlinking succeeds or not.
abbrev pub unless_unlinked : Bool → Node → Option Node
unless_unlinked true node = none
unless_unlinked false node = some node

-- `unlinkat` without REMOVEDIR, which refuses a directory. The first argument is what a file
-- held before.
unfoldable pub unlink : Bytes → Node → Left (Option Node)
unlink was (file contents opens w unlinks) = (
  unless_unlinked unlinks (file contents opens w unlinks),
  if unlinks then (was, contents) ∷ [] else [],
)
unlink was (directory opens entries removes) = (some (directory opens entries removes), [])
unlink was (symlink unlinks) = (unless_unlinked unlinks (symlink unlinks), [])
unlink was (special opens unlinks) = (unless_unlinked unlinks (special opens unlinks), [])

abbrev pub contents_of : Node → Bytes
contents_of (file contents opens w unlinks) = contents
contents_of node = []

-- The branch `FileType::RegularFile`: an overwrite that fails does not stop the unlinking, and
-- that of a device or a FIFO fails as it is not a file.
unfoldable pub scrub_regular : Node → Left (Option Node)
unfolding overwrite_file unlink
scrub_regular (file contents true w unlinks) =
    unlink contents (file (overwrite_file contents w).0 true w unlinks)
scrub_regular (special true unlinks) = unlink [] (special true unlinks)
scrub_regular node = (some node, [])

-- The second half of `FileType::Unknown`: here it does.
unfoldable pub scrub_unknown_file : Node → Left (Option Node)
unfolding overwrite_file unlink
scrub_unknown_file (file contents true w unlinks) =
    let overwritten = file (overwrite_file contents w).0 true w unlinks in
    if (overwrite_file contents w).1 then unlink contents overwritten else (some overwritten, [])
scrub_unknown_file node = (some node, [])

abbrev pub max_scrub_depth : ℕ
max_scrub_depth = 64

-- Past the limit a directory is left as it is.
unfoldable pub within_limit : ℕ → Entries → Left Entries → Left Entries
within_limit depth entries scrubbed = if leb max_scrub_depth depth then (entries, []) else scrubbed

unfoldable pub put_back : Text → FileType → Left (Option Node) → Left Entries → Left Entries
put_back name reported (none, freed) (rest, freed_rest) = (rest, freed ++ freed_rest)
put_back name reported (some node, freed) (rest, freed_rest) =
    (entry name reported node rest, freed ++ freed_rest)

unfoldable mutual
  unfolding within_limit remove_dir unlink scrub_regular scrub_unknown_file put_back

  -- What the `match` does with an inode, by the reported type.
  pub scrub_node : ℕ → FileType → Node → Left (Option Node)
  scrub_node depth FileType.directory_type (directory true entries removes) =
      remove_dir removes (within_limit (suc depth) entries (scrub_entries (suc depth) entries))
  scrub_node depth FileType.directory_type node = (some node, [])
  scrub_node depth FileType.regular_type node = scrub_regular node
  scrub_node depth FileType.symlink_type node = unlink (contents_of node) node
  scrub_node depth FileType.unknown_type (directory true entries removes) =
      remove_dir removes (within_limit (suc depth) entries (scrub_entries (suc depth) entries))
  scrub_node depth FileType.unknown_type node = scrub_unknown_file node
  scrub_node depth FileType.other_type node = (some node, [])

  pub scrub_entries : ℕ → Entries → Left Entries
  scrub_entries depth end = (end, [])
  scrub_entries depth (entry name reported node rest) =
      let later = scrub_entries depth rest in
      let here = scrub_node depth reported node in
      put_back name reported (if is_dot name then (some node, []) else here) later

unfoldable pub scrub_open_dir : ℕ → Entries → Left Entries
unfolding within_limit
scrub_open_dir depth entries = within_limit depth entries (scrub_entries depth entries)
