-- ===== src/Publishing.antt =====
-- src/release.rs, `cargo unikernel release`: what is attached to a release, and the command that
-- publishes it. What the file system, git and gh answer is the input.
pub mod Attached
pub mod Published
use cargo_unikernel.Common.{
  ℕ, Bool, true, false, ◌&&◌, ◌||◌, not, ◌==◌, any, map, retain, if◌then◌else◌, List, [], ◌∷◌, ◌++◌,
  is_empty, Option, none, some, Result, ok, err, ◌>>=◌, ◌>>◌, ok_or, reject_if,
}
use cargo_unikernel.Std.Text.{Text, codes, trim, starts_with}
use cargo_unikernel.Schema.Types.{
  Config, ReleaseAsset, bzimage, cpio, uki, binary, measurement, ovmf,
}

-- What a component is appended to.
unfoldable pub with_slash : Text → Text
with_slash [] = []
with_slash (c ∷ []) = if c == b'/' then c ∷ [] else c ∷ b'/' ∷ []
with_slash (c ∷ (d ∷ s)) = c ∷ with_slash (d ∷ s)

-- `Path::join`.
unfoldable pub join_path : Text → Text → Text
unfolding with_slash
join_path base path = if starts_with (codes "/") path then path else with_slash base ++ path

-- `trim_end_matches('/')`.
unfoldable pub trim_slashes : Text → Text
trim_slashes [] = []
trim_slashes (c ∷ s) =
    let rest = trim_slashes s in if c == b'/' && is_empty rest then [] else c ∷ rest

unfoldable pub host_path : Text → Text
unfolding join_path
host_path dist_dir = join_path dist_dir (codes ".ovmf-cache/OVMF.fd")

unfoldable pub candidate_assets : Config → Text → List (ReleaseAsset × Text)
unfolding join_path host_path
candidate_assets c dist_dir =
    let name = c.project.name in
    (bzimage, join_path dist_dir (name ++ codes ".bzImage"))
    ∷ (cpio, join_path dist_dir (name ++ codes ".cpio"))
    ∷ (uki, join_path dist_dir (name ++ codes ".efi"))
    ∷ (binary, join_path dist_dir (name ++ codes ".bin"))
    ∷ (measurement, join_path dist_dir (codes "sev_measurement.txt"))
    ∷ (measurement, join_path dist_dir (codes "sev_measurement.json"))
    ∷ (ovmf, host_path dist_dir)
    ∷ []

-- Which of the kinds it is.
abbrev pub position : ReleaseAsset → ℕ
position bzimage = 0
position cpio = 1
position uki = 2
position binary = 3
position measurement = 4
position ovmf = 5

-- `selected.is_none_or(|kinds| kinds.contains(kind))`.
abbrev pub is_selected : Option (List ReleaseAsset) → ReleaseAsset → Bool
is_selected none kind = true
is_selected (some kinds) kind = any (λ k. position k == position kind) kinds

unfoldable pub select_assets : (Text → Bool) → Config → Text → List Text
unfolding candidate_assets
select_assets exists c dist_dir = retain exists (
    map (λ asset. asset.1)
      (retain (λ asset. is_selected c.release.assets asset.0) (candidate_assets c dist_dir)))

-- Whether gh is there, what the build came to, which paths exist, what `git describe` and
-- `git rev-parse` print on success, whether gh knows the tag, and the end of `gh release`, if it
-- could be run.
pub record PublishAnswers : Type 0 where
  pub gh_available : Bool
  pub built : Bool
  pub exists : Text → Bool
  pub described : Option Text
  pub revision : Option Text
  pub has_release : Text → Bool
  pub gh_release : List Text → Option Bool

pub data PublishError : Type 0 where
  gh_is_missing build_failed no_artifacts no_tag both_notes gh_not_run gh_failed : PublishError

unfoldable pub resolve_git_tag : PublishAnswers → Option Text
resolve_git_tag a = elim a.described [
  | some tag ↦ some (trim tag)
  | none ↦ elim a.revision [ some revision ↦ some (codes "build-" ++ trim revision) | none ↦ none ]
]

-- `tag.or_else(resolve_git_tag)`.
unfoldable pub tag_of : PublishAnswers → Option Text → Option Text
unfolding resolve_git_tag
tag_of a none = resolve_git_tag a
tag_of a (some tag) = some tag

abbrev pub notes_args : Text → Option Text → Option Text → Result PublishError (List Text)
notes_args project_dir (some notes) none = ok (codes "--notes" ∷ notes ∷ [])
notes_args project_dir none (some file) =
    ok (codes "--notes-file" ∷ join_path project_dir file ∷ [])
notes_args project_dir none none = ok (codes "--generate-notes" ∷ [])
notes_args project_dir (some notes) (some file) = err both_notes

abbrev pub title_args : Option Text → List Text
title_args none = []
title_args (some title) = codes "--title" ∷ title ∷ []

abbrev pub flag_args : Bool → Text → List Text
flag_args false flag = []
flag_args true flag = flag ∷ []

-- `gh release create` before the assets, with the arguments for the notes.
unfoldable pub create_args : Config → Text → List Text → List Text
create_args c tag notes =
    codes "release"
    ∷ codes "create"
    ∷ tag
    ∷ (title_args c.release.title
        ++ (notes
            ++ (flag_args c.release.draft (codes "--draft")
                ++ flag_args c.release.prerelease (codes "--prerelease"))))

-- What gh is called with before the assets: the release is there, or it is made.
unfoldable pub release_args : Text → Config → Text → Bool → Result PublishError (List Text)
unfolding create_args
release_args project_dir c tag true =
    ok (codes "release" ∷ codes "upload" ∷ tag ∷ codes "--clobber" ∷ [])
release_args project_dir c tag false = do
  notes ← notes_args project_dir c.release.notes c.release.notes_file
  ok (create_args c tag notes)

-- `status()?` and `success()`.
abbrev pub ended_well : Option Bool → Result PublishError (Unit {0})
ended_well none = err gh_not_run
ended_well (some false) = err gh_failed
ended_well (some true) = ok tt

abbrev pub dist_dir_of : Text → Config → Text
dist_dir_of project_dir c = join_path project_dir (trim_slashes c.output.dir)

-- `run`: the tag, and the arguments of the command that published it.
unfoldable pub publish :
    Text → Option Text → Bool → PublishAnswers → Config → Result PublishError (Text × List Text)
unfolding select_assets tag_of release_args
publish project_dir tag no_build a c = do
  reject_if (not a.gh_available) gh_is_missing
  reject_if (not no_build && not a.built) build_failed
  let assets = select_assets a.exists c (dist_dir_of project_dir c)
  reject_if (is_empty assets) no_artifacts
  tag ← ok_or (tag_of a tag) no_tag
  args ← release_args project_dir c tag (a.has_release tag)
  ended_well (a.gh_release (args ++ assets))
  ok (tag, args ++ assets)
