-- ===== src/Examples/Scrub.antt =====
-- The theorems on the scrub of the directories, at a concrete tree.
use cargo_unikernel.Common.{◌≡◌, refl, true, false, arith, inl, inr}
use cargo_unikernel.Std.Text.{codes, text_eq}
use cargo_unikernel.Guest.Shutdown.Scrub.{
  FileType, Writing, overwrite_file, file, directory, symlink, special, Entries, end, entry, is_dot,
  removable, scrub_open_dir,
}
use cargo_unikernel.Guest.Shutdown.Scrub.Cleared.{
  a_directory, a_file, a_symlink, a_special, not_told, Writes, AllWrite, AllZeros,
  scrub_frees_zeros,
}
use cargo_unikernel.Guest.Shutdown.Scrub.Removed.{Clears, AllClear, scrub_removes_all}

abbrev room_for_three : Writing
room_for_three = record { has_metadata = true; room = 3; syncs = true }

-- `.`, a file, and a directory of unknown type with a symlink in it.
abbrev inner : Entries
inner = entry (codes "link") FileType.symlink_type (symlink true) end

abbrev tree : Entries
tree = entry (codes ".") FileType.directory_type (directory true end true) (
    entry (codes "secret") FileType.regular_type (file (codes "key") true room_for_three true)
      (entry (codes "cache") FileType.unknown_type (directory true inner true) end))

-- The same with a device and with a file that does not open.
abbrev stubborn : Entries
stubborn = entry (codes "device") FileType.other_type (special true false) (
    entry (codes "locked") FileType.unknown_type (file (codes "key") false room_for_three false)
      tree)

tree_writes : AllWrite stubborn
unfolding AllWrite Writes
tree_writes = (
  a_special true false,
  tt,
  (
    not_told (file (codes "key") false room_for_three false),
    (refl, refl),
    (
      a_directory true end true,
      tt,
      (
        a_file (codes "key") true room_for_three true,
        (refl, refl),
        (not_told (directory true inner true), (a_symlink true, tt, tt), tt),
      ),
    ),
  ),
)

scrub_frees_zeros_example : AllZeros (scrub_open_dir 0 stubborn).1
scrub_frees_zeros_example = scrub_frees_zeros stubborn tree_writes

tree_clear : AllClear 0 tree
unfolding AllClear Clears is_dot text_eq overwrite_file
tree_clear = (
  inl refl,
  (
    inr (refl, (a_file (codes "key") true room_for_three true, refl, refl, refl)),
    (
      inr (
        refl,
        (
          not_told (directory true inner true),
          refl,
          omega arith,
          refl,
          (inr (refl, (refl, refl)), tt),
        ),
      ),
      tt,
    ),
  ),
)

scrub_removes_all_example : removable (scrub_open_dir 0 tree).0 ≡ true
scrub_removes_all_example = scrub_removes_all tree tree_clear
