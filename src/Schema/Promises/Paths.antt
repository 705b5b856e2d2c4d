-- ===== src/Schema/Promises/Paths.antt =====
-- The paths of a validated config (src/schema.rs) against a lexical reading of them: a sysctl's
-- path stays below `/proc/sys`, and the output directory inside the project.
use cargo_unikernel.Common.{
  ◌≡◌, refl, sym, ap, subst, ◌∙◌, true, false, ◌||◌, not, List, [], ◌∷◌, ◌++◌, All, any, is_empty,
  arith, ok, if◌then◌else◌, Bool-cases, inl, inr, for_each, or-eq-false,
}
use cargo_unikernel.Std.Text.{Text, codes, text_eq, starts_with, split, cons_head}
use cargo_unikernel.Schema.Types.{Config}
use cargo_unikernel.Schema.Validate.{validate}
use cargo_unikernel.Schema.Validate.Checked.{validate-Checked}
use cargo_unikernel.Schema.Validate.Entries.{
  is_parent_dir, check_sysctl_path, validate_extra_sysctl_paths,
}
use cargo_unikernel.Schema.Validate.Sections.{escapes_project, validate_output_and_release}

abbrev parent : List Text → List Text
parent [] = []
parent (x ∷ xs) = xs

-- A directory as its names, the last one first. `..` goes up, an empty name and `.` stay.
unfoldable pub enter : List Text → Text → List Text
enter at name =
    if is_parent_dir name
    then parent at
    else if is_empty name || text_eq name (codes ".")
    then at
    else name ∷ at

unfoldable pub walk : List Text → List Text → List Text
unfolding enter
walk at [] = at
walk at (name ∷ names) = walk (enter at name) names

-- Where a path leads from a directory.
unfoldable pub resolve : List Text → Text → List Text
unfolding walk
resolve at path = walk (if starts_with (codes "/") path then [] else at) (split b'/' path)

-- A directory below another, or the same.
abbrev pub Inside : List Text → List Text → Type 0
Inside dir base = (below : List Text) × (dir ≡ below ++ base)

enter-Inside :
    (base at : List Text) (name : Text)
    → is_parent_dir name ≡ false
    → Inside at base
    → Inside (enter at name) base
unfolding enter
enter-Inside base at name h (below, e) =
    elim (Bool-cases (is_empty name || text_eq name (codes "."))) [
      | inl stays ↦ rw (h, stays) (below, e)
      | inr goes ↦ rw (h, goes) (name ∷ below, ap (◌∷◌ name) e)
    ]

walk-Inside :
    (base at : List Text) (names : List Text)
    → any is_parent_dir names ≡ false
    → Inside at base
    → Inside (walk at names) base
unfolding walk any
walk-Inside base at [] h i = i
walk-Inside base at (name ∷ names) h i =
    let (here, later) = or-eq-false (is_parent_dir name) (any is_parent_dir names) h in
    walk-Inside base (enter at name) names later (enter-Inside base at name here i)

-- What follows a prefix.
starts_with-eq : (p s : Text) → starts_with p s ≡ true → (rest : Text) × (s ≡ p ++ rest)
unfolding starts_with
starts_with-eq [] s h = (s, refl)
starts_with-eq (a ∷ p) [] h = absurd (cc)
starts_with-eq (a ∷ p) (c ∷ s) h =
    let (rest, e) = starts_with-eq p s (ground arith) in
    let same : a ≡ c = ground arith in (rest, ap (λ x. x ∷ s) (sym same) ∙ ap (◌∷◌ a) e)

proc_sys-Inside :
    (rest : Text)
    → any is_parent_dir (split b'/' (codes "/proc/sys/" ++ rest)) ≡ false
    → Inside (resolve [] (codes "/proc/sys/" ++ rest)) (codes "sys" ∷ codes "proc" ∷ [])
unfolding resolve walk enter split cons_head any is_parent_dir text_eq starts_with
proc_sys-Inside rest h =
    walk-Inside (codes "sys" ∷ codes "proc" ∷ []) (codes "sys" ∷ codes "proc" ∷ [])
      (split b'/' rest) h ([], refl)

pub key-Inside :
    (key value : Text)
    → check_sysctl_path (key, value) ≡ ok tt
    → Inside (resolve [] key) (codes "sys" ∷ codes "proc" ∷ [])
unfolding check_sysctl_path
key-Inside key value h =
    let (begins, plain) =
      or-eq-false (not (starts_with (codes "/proc/sys/") key)) (any is_parent_dir (split b'/' key))
        (ground arith) in
    let (rest, e) = starts_with-eq (codes "/proc/sys/") key (ground arith) in
    rw e (proc_sys-Inside rest (subst (λ k. any is_parent_dir (split b'/' k) ≡ false) e plain))

keys-Inside :
    (ps : List (Text × Text))
    → for_each check_sysctl_path ps ≡ ok tt
    → All (λ p. Inside (resolve [] p.0) (codes "sys" ∷ codes "proc" ∷ [])) ps
unfolding for_each
keys-Inside [] h = tt
keys-Inside (p ∷ ps) h = (key-Inside p.0 p.1 (ground arith), keys-Inside ps (ground arith))

-- If a config passes `validate`, every path of its `extra_sysctls` leads below `/proc/sys`, with `..`
-- taken as the parent.
pub sysctl_paths-Inside :
    (c : Config)
    → validate c ≡ ok tt
    → All (λ p. Inside (resolve [] p.0) (codes "sys" ∷ codes "proc" ∷ [])) c.hardening.extra_sysctls
unfolding validate_extra_sysctl_paths
sysctl_paths-Inside c h = keys-Inside c.hardening.extra_sysctls (validate-Checked c h).sysctls

-- If a config passes `validate`, its output directory is inside the project's directory, wherever
-- that is, with `..` taken as the parent.
pub output_dir-Inside :
    (c : Config) (project : List Text)
    → validate c ≡ ok tt
    → Inside (resolve project c.output.dir) project
unfolding resolve validate_output_and_release escapes_project
output_dir-Inside c project h =
    let v = validate-Checked c h in
    let (relative, plain) =
      or-eq-false (starts_with (codes "/") c.output.dir)
        (any is_parent_dir (split b'/' c.output.dir)) (ground (arith, v.output)) in
    rw relative (walk-Inside project project (split b'/' c.output.dir) plain ([], refl))
