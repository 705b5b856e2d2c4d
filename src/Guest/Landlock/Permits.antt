-- ===== src/Guest/Landlock/Permits.antt =====
-- What the grants of guest/src/landlock.rs come to on a file that several of them cover.
use cargo_unikernel.Common.{
  any, ◌&&◌, ◌||◌, ◌==◌, bit_and, bit_or, ℕ, ◌≡◌, refl, Bool, true, false, not, List, [], ◌∷◌, All,
  Bool-cases, inl, inr, arith,
}
use cargo_unikernel.Std.Text.{Text, text_eq, text_eq_iff}
use cargo_unikernel.Guest.Landlock.{Grant, Ruleset, fs_execute, fs_make_char, fs_make_block}
use cargo_unikernel.Guest.Landlock.Roots.{Rooted, write_roots}
use cargo_unikernel.Guest.Landlock.Rights.{writing, Confined}

-- Of a grant of the ruleset: its rights, and where they let the app write.
abbrev pub Bounded : Text → List Text → Grant → Type 0
Bounded payload_dir extra grant = Confined payload_dir grant × Rooted extra grant

-- Landlock's rule for one ruleset: a file has a right if a grant has it whose path the file is at
-- or below. `covers` says of a path whether the file is.
unfoldable pub permits : (Text → Bool) → List Grant → ℕ → Bool
permits covers granted rights =
    any (λ g. covers g.path && not (bit_and g.allowed_access rights == 0)) granted

-- Every right through `fs_ioctl_dev` is governed. On any file, whatever grants come together on it:
-- no device node can be made, execution needs the payload's directory above it, and a change
-- one of the paths that the app may write below.
abbrev pub Sandboxed : Text → List Text → (Text → Bool) → Ruleset → Type 0
Sandboxed payload_dir extra_read_write covers built =
    (built.handled_access_fs ≡ 0xFFFF)
    × (permits covers built.granted (bit_or fs_make_char fs_make_block) ≡ false)
    × ((permits covers built.granted fs_execute && not (covers payload_dir)) ≡ false)
    × ((permits covers built.granted writing && not (any covers (write_roots extra_read_write)))
        ≡ false)

-- A path of the list that covers the file.
covers-listed :
    (covers : Text → Bool) (path : Text) (roots : List Text)
    → any (text_eq path) roots ≡ true
    → covers path ≡ true
    → any covers roots ≡ true
unfolding any
covers-listed covers path [] h k = absurd (cc)
covers-listed covers path (root ∷ roots) h k = elim (Bool-cases (text_eq path root)) [
  | inl same ↦
      let here : covers root ≡ true = rw (← (text_eq_iff path root).0 same) k in rw here refl
  | inr other ↦ let later = covers-listed covers path roots (rw other at h) k in ground arith
]

module _ (payload_dir : Text) (extra : List Text) (covers : Text → Bool) where
  no_device_nodes :
      (granted : List Grant)
      → All (Bounded payload_dir extra) granted
      → permits covers granted (bit_or fs_make_char fs_make_block) ≡ false
  unfolding permits any
  no_device_nodes [] h = refl
  no_device_nodes (g ∷ granted) h =
      rw (h.0.0.1, no_device_nodes granted h.1) (and-false (covers g.path))
    where
      and-false : (b : Bool) → (b && false || false) ≡ false
      and-false true = refl
      and-false false = refl

  execution_below_payload :
      (granted : List Grant)
      → All (Bounded payload_dir extra) granted
      → covers payload_dir ≡ false
      → permits covers granted fs_execute ≡ false
  unfolding permits any
  execution_below_payload [] h k = refl
  execution_below_payload (g ∷ granted) h k =
      let rest = execution_below_payload granted h.1 k in
      elim h.0.0.2 [
        | inl quiet ↦ rw (quiet, rest) (ground arith)
        | inr (at_payload, quiet) ↦
            let apart : covers g.path ≡ false = rw at_payload k in rw (apart, rest) refl
      ]

  writing_below_roots :
      (granted : List Grant)
      → All (Bounded payload_dir extra) granted
      → any covers (write_roots extra) ≡ false
      → permits covers granted writing ≡ false
  unfolding permits any
  writing_below_roots [] h k = refl
  writing_below_roots (g ∷ granted) h k =
      let rest = writing_below_roots granted h.1 k in
      elim h.0.1 [
        | inl quiet ↦ rw (quiet, rest) (ground arith)
        | inr listed ↦ elim (Bool-cases (covers g.path)) [
          | inl above ↦
              let covered = covers-listed covers g.path (write_roots extra) listed above in
              absurd (cc)
          | inr apart ↦ rw (apart, rest) refl
        ]
      ]

  needs : (may root : Bool) → (root ≡ false → may ≡ false) → (may && not root) ≡ false
  needs may true h = ground arith
  needs may false h = rw (h refl) refl

  pub granted-Sandboxed :
      (built : Ruleset)
      → built.handled_access_fs ≡ 0xFFFF
      → All (Bounded payload_dir extra) built.granted
      → Sandboxed payload_dir extra covers built
  granted-Sandboxed built governed h = (
    governed,
    no_device_nodes built.granted h,
    needs (permits covers built.granted fs_execute) (covers payload_dir)
        (execution_below_payload built.granted h),
    needs (permits covers built.granted writing) (any covers (write_roots extra))
        (writing_below_roots built.granted h),
  )
