-- ===== src/Guest/Shutdown/Scrub/Removed.antt =====
-- When the scrub of guest/src/shutdown.rs leaves a directory empty.
use cargo_unikernel.Common.{
  ℕ, suc, ◌<◌, ◌≡◌, refl, Bool, true, false, leb, [], Option, none, some, arith, inl, inr, ◌⊎◌,
}
use cargo_unikernel.Std.Text.{Text}
use cargo_unikernel.Guest.Firewall.Bytes.{Bytes}
use cargo_unikernel.Guest.Shutdown.Scrub.{
  FileType, Node, Writing, file, directory, symlink, special, Entries, end, entry, Left, is_dot,
  removable, remove_dir, unlink, scrub_regular, scrub_unknown_file, put_back, within_limit,
  scrub_node, scrub_entries, scrub_open_dir, overwrite_file,
}
use cargo_unikernel.Guest.Shutdown.Scrub.Cleared.{Honest, a_directory, a_file, not_told}

unfoldable mutual
  -- What the scrub can remove at a depth: files that open, can be overwritten and unlinked,
  -- directories of such that open above the limit and can be removed, and symlinks that are
  -- reported as such and can be unlinked.
  pub Clears : ℕ → FileType → Node → Type 0
  Clears depth reported (file contents opens w unlinks) =
      Honest reported (file contents opens w unlinks)
      × (opens ≡ true)
      × ((overwrite_file contents w).1 ≡ true)
      × (unlinks ≡ true)
  Clears depth reported (directory opens entries removes) =
      Honest reported (directory opens entries removes)
      × (opens ≡ true)
      × (suc depth < 64)
      × (removes ≡ true)
      × AllClear (suc depth) entries
  Clears depth reported (symlink unlinks) = (reported ≡ FileType.symlink_type) × (unlinks ≡ true)
  Clears depth reported (special opens unlinks) = ⊥

  pub AllClear : ℕ → Entries → Type 0
  AllClear depth end = Unit
  AllClear depth (entry name reported node rest) =
      ((is_dot name ≡ true) ⊎ ((is_dot name ≡ false) × Clears depth reported node))
      × AllClear depth rest

-- What is left of the entry is nothing.
abbrev Gone : ℕ → FileType → Node → Type 0
Gone depth reported node = (scrub_node depth reported node).0 ≡ none

emptied :
    (depth : ℕ) (entries : Entries)
    → suc depth < 64
    → removable (scrub_entries (suc depth) entries).0 ≡ true
    → (remove_dir true (within_limit (suc depth) entries (scrub_entries (suc depth) entries))).0
      ≡ none
unfolding remove_dir within_limit
emptied depth entries k h =
    let shallow : leb 64 (suc depth) ≡ false = ground arith in rw (shallow, h) refl

directory-Gone :
    (depth : ℕ) (reported : FileType) (opens : Bool) (entries : Entries) (removes : Bool)
    → Honest reported (directory opens entries removes)
    → opens ≡ true
    → suc depth < 64
    → removes ≡ true
    → removable (scrub_entries (suc depth) entries).0 ≡ true
    → Gone depth reported (directory opens entries removes)
unfolding scrub_node
directory-Gone depth reported true entries true (a_directory _ _ _) o k r h =
    emptied depth entries k h
directory-Gone depth reported true entries true (not_told _) o k r h = emptied depth entries k h
directory-Gone depth reported true entries false t o k r h = absurd (cc)
directory-Gone depth reported false entries removes t o k r h = absurd (cc)

file-Gone :
    (depth : ℕ) (reported : FileType) (contents : Bytes) (opens : Bool) (w : Writing)
    (unlinks : Bool)
    → Honest reported (file contents opens w unlinks)
    → opens ≡ true
    → (overwrite_file contents w).1 ≡ true
    → unlinks ≡ true
    → Gone depth reported (file contents opens w unlinks)
unfolding scrub_node unlink scrub_regular scrub_unknown_file
file-Gone depth reported contents true w true (a_file _ _ _ _) o k u = refl
file-Gone depth reported contents true w true (not_told _) o k u = rw k refl
file-Gone depth reported contents true w false t o k u = absurd (cc)
file-Gone depth reported contents false w unlinks t o k u = absurd (cc)

-- What an entry that is gone leaves of the directory is what the others leave.
put_back-Gone :
    (name : Text) (reported : FileType) (here : Left (Option Node)) (later : Left Entries)
    → here.0 ≡ none
    → (put_back name reported here later).0 ≡ later.0
unfolding put_back
put_back-Gone name reported (none, freed) (rest, freed_rest) h = refl
put_back-Gone name reported (some node, freed) (rest, freed_rest) h = absurd (cc)

put_back-dot :
    (name : Text) (reported : FileType) (node : Node) (later : Left Entries)
    → is_dot name ≡ true
    → removable later.0 ≡ true
    → removable (put_back name reported (some node, []) later).0 ≡ true
unfolding put_back removable
put_back-dot name reported node (rest, freed_rest) h k = rw (h, k) refl

end-removable : removable end ≡ true
unfolding removable
end-removable = refl

symlink-Gone :
    (depth : ℕ) (reported : FileType) (unlinks : Bool)
    → reported ≡ FileType.symlink_type
    → unlinks ≡ true
    → Gone depth reported (symlink unlinks)
unfolding scrub_node unlink
symlink-Gone depth reported true h u = rw h refl
symlink-Gone depth reported false h u = absurd (cc)

mutual
  unfolding scrub_entries Clears AllClear

  node-Gone :
      (depth : ℕ) (reported : FileType) (node : Node)
      → Clears depth reported node
      → Gone depth reported node
  node-Gone depth reported (directory opens entries removes) h =
      directory-Gone depth reported opens entries removes h.0 h.1 h.2 h.3
        (entries_gone (suc depth) entries h.4)
  node-Gone depth reported (file contents opens w unlinks) h =
      file-Gone depth reported contents opens w unlinks h.0 h.1 h.2 h.3
  node-Gone depth reported (symlink unlinks) h = symlink-Gone depth reported unlinks h.0 h.1
  node-Gone depth reported (special opens unlinks) h = elim h [ ]

  entries_gone :
      (depth : ℕ) (entries : Entries)
      → AllClear depth entries
      → removable (scrub_entries depth entries).0 ≡ true
  entries_gone depth end h = end-removable
  entries_gone depth (entry name reported node rest) h = elim h.0 [
    | inl dot ↦ rw dot (
        put_back-dot name reported node (scrub_entries depth rest) dot
          (entries_gone depth rest h.1))
    | inr (other, c) ↦
        rw
          (
            other,
            put_back-Gone name reported (scrub_node depth reported node) (scrub_entries depth rest)
                (node-Gone depth reported node c),
          )
          (entries_gone depth rest h.1)
  ]

-- If from the top of a directory down every file opens, is overwritten and synced without an error
-- and can be unlinked, every directory opens, lies above the depth limit and can be removed once it
-- is empty (so none is a mount point), every symlink can be unlinked, the types are reported as
-- they are (those of files and directories may be unknown), and there is nothing else, then the
-- scrub leaves `.` and `..`.
pub scrub_removes_all :
    (entries : Entries) → AllClear 0 entries → removable (scrub_open_dir 0 entries).0 ≡ true
unfolding scrub_open_dir within_limit
scrub_removes_all entries h = entries_gone 0 entries h
