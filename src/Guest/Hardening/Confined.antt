-- ===== src/Guest/Hardening/Confined.antt =====
-- Where guest/src/hardening.rs writes.
use cargo_unikernel.Common.{◌≡◌, refl, true, false, List, [], ◌∷◌, ◌++◌, any, All, ok, arith}
use cargo_unikernel.Std.Text.{
  Text, codes, text_eq, starts_with, split, cons_head, split-append, split-Lacks, Lack, contains,
}
use cargo_unikernel.Schema.Promises.Paths.{Inside, resolve, key-Inside}
use cargo_unikernel.Schema.Validate.Entries.{is_parent_dir, check_sysctl_path}
use cargo_unikernel.Guest.Hardening.{
  Knob, Written, Sysctls, SysctlAnswers, HardeningFeatures, warn, note_written, write_sysctl, apply,
  knobs_of, conf_path, ipv4_interface_knobs, ipv6_interface_knobs, is_sysctl_path, done,
  no_such_file, write_error,
}
use cargo_unikernel.Guest.Hardening.Invariants.{ListedNamed, apply-Inv}

-- What the guest does not refuse, the host does not either.
pub is_sysctl_path-checked :
    (path value : Text) → is_sysctl_path path ≡ true → check_sysctl_path (path, value) ≡ ok tt
unfolding check_sysctl_path is_sysctl_path is_parent_dir
is_sysctl_path-checked path value h = ground arith

pub checked-is_sysctl_path :
    (path value : Text) → check_sysctl_path (path, value) ≡ ok tt → is_sysctl_path path ≡ true
unfolding check_sysctl_path is_sysctl_path is_parent_dir
checked-is_sysctl_path path value h = ground arith

-- The name of a directory's entry: one component, and not the parent.
abbrev pub EntryName : Text → Type 0
EntryName name = Lack b'/' name × (text_eq name (codes "..") ≡ false)

-- Below `/proc/sys`.
abbrev pub BelowSys : Knob × Written → Type 0
BelowSys w = Inside (resolve [] w.0.0) (codes "sys" ∷ codes "proc" ∷ [])

abbrev Confined : Sysctls → Type 0
Confined s = All BelowSys s.writes

snoc-All :
    (ws : List (Knob × Written)) (w : Knob × Written)
    → All BelowSys ws
    → BelowSys w
    → All BelowSys (ws ++ w ∷ [])
snoc-All [] w h k = (k, tt)
snoc-All (v ∷ ws) w h k = (h.0, snoc-All ws w h.1 k)

note-Confined :
    (k : Knob) (r : Written) (s : Sysctls)
    → is_sysctl_path k.0 ≡ true
    → Confined s
    → Confined (note_written k r s)
unfolding note_written
note-Confined k done s h i =
    snoc-All s.writes (k, done) i (key-Inside k.0 k.1 (is_sysctl_path-checked k.0 k.1 h))
note-Confined k no_such_file s h i =
    snoc-All s.writes (k, no_such_file) i (key-Inside k.0 k.1 (is_sysctl_path-checked k.0 k.1 h))
note-Confined k (write_error errno) s h i =
    snoc-All s.writes (k, write_error errno) i
      (key-Inside k.0 k.1 (is_sysctl_path-checked k.0 k.1 h))

-- The sysctl of an interface, by the two families.
ipv4_knob :
    (name knob : Text)
    → EntryName name
    → EntryName knob
    → is_sysctl_path (conf_path (codes "ipv4") ++ b'/' ∷ (name ++ b'/' ∷ knob)) ≡ true
unfolding is_sysctl_path starts_with split cons_head any text_eq
ipv4_knob name knob (one, up) (last, plain) =
    rw (split-append b'/' name knob one, split-Lacks b'/' knob last, up, plain) refl

ipv6_knob :
    (name knob : Text)
    → EntryName name
    → EntryName knob
    → is_sysctl_path (conf_path (codes "ipv6") ++ b'/' ∷ (name ++ b'/' ∷ knob)) ≡ true
unfolding is_sysctl_path starts_with split cons_head any text_eq
ipv6_knob name knob (one, up) (last, plain) =
    rw (split-append b'/' name knob one, split-Lacks b'/' knob last, up, plain) refl

-- If the entries that the two directories list are named by one component other than `..`, then
-- every path that `apply` writes to, those of `extra` included, leads below `/proc/sys`, with `..`
-- taken as the parent.
pub apply-Confined :
    (a : SysctlAnswers) (f : HardeningFeatures) (extra : List Knob)
    → ListedNamed EntryName (a.read_dir (conf_path (codes "ipv4")))
    → ListedNamed EntryName (a.read_dir (conf_path (codes "ipv6")))
    → All BelowSys (apply a f extra).writes
unfolding warn write_sysctl knobs_of ipv4_interface_knobs ipv6_interface_knobs contains text_eq
apply-Confined a f extra ipv4 ipv6 =
    apply-Inv a Confined (λ k. is_sysctl_path k.0 ≡ true) EntryName (λ w s _ i. i)
      (λ k s h i. note-Confined k (a.write s.writes k) s h i) (λ k h. h)
      (λ name n. (
        ipv4_knob name _ n (refl, refl),
        (
          ipv4_knob name _ n (refl, refl),
          (ipv4_knob name _ n (refl, refl), (ipv4_knob name _ n (refl, refl), tt)),
        ),
      ))
      (λ name n. (ipv6_knob name _ n (refl, refl), (ipv6_knob name _ n (refl, refl), tt))) ipv4 ipv6
      f extra tt
