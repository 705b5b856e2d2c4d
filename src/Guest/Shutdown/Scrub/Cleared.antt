-- ===== src/Guest/Shutdown/Scrub/Cleared.antt =====
-- What the scrub of guest/src/shutdown.rs leaves, and what it frees.
use cargo_unikernel.Common.{
  ℕ, suc, ◌≡◌, refl, Bool, true, false, leb, if◌then◌else◌, List, [], ◌∷◌, ◌++◌, length, Option,
  none, some, All, Bool-cases, inl, inr,
}
use cargo_unikernel.Std.Text.{Text}
use cargo_unikernel.Guest.Firewall.Bytes.{Bytes}
use cargo_unikernel.Guest.Zeros.{zeros}
use cargo_unikernel.Guest.Shutdown.Scrub.{
  FileType, Node, Writing, Freed, file, directory, symlink, special, Entries, end, entry, Left,
  is_dot, remove_dir, unlink, scrub_regular, scrub_unknown_file, put_back, within_limit, scrub_node,
  scrub_entries, scrub_open_dir, overwrite_file,
}

-- The reported type is the inode's, or unknown.
pub data Honest : FileType → Node → Type 0 where
  a_directory :
      (opens : Bool) (entries : Entries) (removes : Bool)
      → Honest FileType.directory_type (directory opens entries removes)
  a_file :
      (contents : Bytes) (opens : Bool) (w : Writing) (unlinks : Bool)
      → Honest FileType.regular_type (file contents opens w unlinks)
  a_symlink : (unlinks : Bool) → Honest FileType.symlink_type (symlink unlinks)
  a_special : (opens unlinks : Bool) → Honest FileType.other_type (special opens unlinks)
  not_told : (node : Node) → Honest FileType.unknown_type node

-- The metadata is read, and every write of the overwriting succeeds.
abbrev pub Overwritable : Bytes → Writing → Type 0
Overwritable contents w = (w.has_metadata ≡ true) × (leb (length contents) w.room ≡ true)

unfoldable mutual
  -- The writes to every file succeed, and no report is false. Opens, syncs and unlinks may fail.
  pub Writes : Node → Type 0
  Writes (file contents opens w unlinks) = Overwritable contents w
  Writes (directory opens entries removes) = AllWrite entries
  Writes (symlink unlinks) = Unit
  Writes (special opens unlinks) = Unit

  pub AllWrite : Entries → Type 0
  AllWrite end = Unit
  AllWrite (entry name reported node rest) = Honest reported node × Writes node × AllWrite rest

-- Each file held as many zeros when it went as it had bytes before.
abbrev pub AllZeros : List Freed → Type 0
AllZeros freed = All (λ f. f.1 ≡ zeros (length f.0)) freed

append-AllZeros : (xs ys : List Freed) → AllZeros xs → AllZeros ys → AllZeros (xs ++ ys)
append-AllZeros [] ys a b = b
append-AllZeros (x ∷ xs) ys a b = (a.0, append-AllZeros xs ys a.1 b)

put_back-AllZeros :
    (name : Text) (reported : FileType) (here : Left (Option Node)) (later : Left Entries)
    → AllZeros here.1
    → AllZeros later.1
    → AllZeros (put_back name reported here later).1
unfolding put_back
put_back-AllZeros name reported (none, freed) (rest, freed_rest) a b =
    append-AllZeros freed freed_rest a b
put_back-AllZeros name reported (some node, freed) (rest, freed_rest) a b =
    append-AllZeros freed freed_rest a b

limited-AllZeros :
    (depth : ℕ) (entries : Entries) (scrubbed : Left Entries)
    → AllZeros scrubbed.1
    → AllZeros (within_limit depth entries scrubbed).1
unfolding within_limit
limited-AllZeros depth entries scrubbed h = elim (Bool-cases (leb 64 depth)) [
  | inl deep ↦ rw deep tt
  | inr shallow ↦ rw shallow h
]

removed-AllZeros :
    (removes : Bool) (scrubbed : Left Entries)
    → AllZeros scrubbed.1
    → AllZeros (remove_dir removes scrubbed).1
unfolding remove_dir
removed-AllZeros removes (left, freed) h = h

directory_frees :
    (depth : ℕ) (reported : FileType) (opens : Bool) (entries : Entries) (removes : Bool)
    → Honest reported (directory opens entries removes)
    → AllZeros (scrub_entries (suc depth) entries).1
    → AllZeros (scrub_node depth reported (directory opens entries removes)).1
unfolding scrub_node scrub_unknown_file
directory_frees depth reported true entries removes (a_directory _ _ _) h =
    removed-AllZeros removes (within_limit (suc depth) entries (scrub_entries (suc depth) entries))
      (limited-AllZeros (suc depth) entries _ h)
directory_frees depth reported false entries removes (a_directory _ _ _) h = tt
directory_frees depth reported true entries removes (not_told _) h =
    removed-AllZeros removes (within_limit (suc depth) entries (scrub_entries (suc depth) entries))
      (limited-AllZeros (suc depth) entries _ h)
directory_frees depth reported false entries removes (not_told _) h = tt

overwritten :
    (contents : Bytes) (w : Writing)
    → Overwritable contents w
    → overwrite_file contents w ≡ (zeros (length contents), w.syncs)
unfolding overwrite_file
overwritten contents w h = rw (h.0, h.1) refl

unlink_frees :
    (contents : Bytes) (opens : Bool) (w : Writing) (unlinks : Bool)
    → Overwritable contents w
    → AllZeros (unlink contents (file (overwrite_file contents w).0 opens w unlinks)).1
unfolding unlink
unlink_frees contents opens w true h = rw (overwritten contents w h) (refl, tt)
unlink_frees contents opens w false h = tt

file_frees :
    (depth : ℕ) (reported : FileType) (contents : Bytes) (opens : Bool) (w : Writing)
    (unlinks : Bool)
    → Honest reported (file contents opens w unlinks)
    → Overwritable contents w
    → AllZeros (scrub_node depth reported (file contents opens w unlinks)).1
unfolding scrub_node scrub_regular scrub_unknown_file
file_frees depth reported contents true w unlinks (a_file _ _ _ _) h =
    unlink_frees contents true w unlinks h
file_frees depth reported contents false w unlinks (a_file _ _ _ _) h = tt
file_frees depth reported contents true w unlinks (not_told _) h =
    elim (Bool-cases (overwrite_file contents w).1) [
      | inl synced ↦ rw synced (unlink_frees contents true w unlinks h)
      | inr failed ↦ rw failed tt
    ]
file_frees depth reported contents false w unlinks (not_told _) h = tt

symlink_frees :
    (depth : ℕ) (reported : FileType) (unlinks : Bool)
    → Honest reported (symlink unlinks)
    → AllZeros (scrub_node depth reported (symlink unlinks)).1
unfolding scrub_node unlink scrub_unknown_file
symlink_frees depth reported unlinks (a_symlink _) = tt
symlink_frees depth reported unlinks (not_told _) = tt

special_frees :
    (depth : ℕ) (reported : FileType) (opens unlinks : Bool)
    → Honest reported (special opens unlinks)
    → AllZeros (scrub_node depth reported (special opens unlinks)).1
unfolding scrub_node unlink scrub_regular scrub_unknown_file
special_frees depth reported opens unlinks (a_special _ _) = tt
special_frees depth reported opens unlinks (not_told _) = tt

mutual
  unfolding scrub_entries Writes AllWrite

  node_frees :
      (depth : ℕ) (reported : FileType) (node : Node)
      → Honest reported node
      → Writes node
      → AllZeros (scrub_node depth reported node).1
  node_frees depth reported (directory opens entries removes) t h =
      directory_frees depth reported opens entries removes t (entries_free (suc depth) entries h)
  node_frees depth reported (file contents opens w unlinks) t h =
      file_frees depth reported contents opens w unlinks t h
  node_frees depth reported (symlink unlinks) t h = symlink_frees depth reported unlinks t
  node_frees depth reported (special opens unlinks) t h =
      special_frees depth reported opens unlinks t

  entries_free :
      (depth : ℕ) (entries : Entries) → AllWrite entries → AllZeros (scrub_entries depth entries).1
  entries_free depth end h = tt
  entries_free depth (entry name reported node rest) h =
      put_back-AllZeros name reported
        (if is_dot name then (some node, []) else scrub_node depth reported node)
        (scrub_entries depth rest)
        (elim (Bool-cases (is_dot name)) [
          | inl dot ↦ rw dot tt
          | inr other ↦ rw other (node_frees depth reported node h.0 h.1)
        ])
        (entries_free depth rest h.2)

-- If no report of a type is false and, for every file, the metadata is read and the writes succeed,
-- then every file that the scrub unlinks, at any depth and whatever opens, syncs or unlinks fail,
-- goes with exactly as many zeros as it had bytes.
pub scrub_frees_zeros :
    (entries : Entries) → AllWrite entries → AllZeros (scrub_open_dir 0 entries).1
unfolding scrub_open_dir
scrub_frees_zeros entries h =
    limited-AllZeros 0 entries (scrub_entries 0 entries) (entries_free 0 entries h)
