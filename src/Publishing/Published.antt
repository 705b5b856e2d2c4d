-- ===== src/Publishing/Published.antt =====
-- What the release command of src/release.rs attaches, and when it goes through.
use cargo_unikernel.Common.{
  ◌≡◌, refl, Bool, true, false, ◌&&◌, ◌||◌, not, List, [], ◌∷◌, ◌++◌, is_empty, Option, none, some,
  ok, arith, Result-cases, inl, inr,
}
use cargo_unikernel.Std.Text.{Text, codes}
use cargo_unikernel.Schema.Types.{Config}
use cargo_unikernel.Schema.Validate.{validate}
use cargo_unikernel.Schema.Validate.Checked.{validate-Checked}
use cargo_unikernel.Schema.Validate.Sections.{validate_output_and_release}
use cargo_unikernel.Publishing.{
  PublishAnswers, title_args, flag_args, join_path, select_assets, tag_of, create_args, notes_args,
  release_args, dist_dir_of, publish,
}
use cargo_unikernel.Publishing.Attached.{Attached, select_assets-Attached}

abbrev pub Titled : Option Text → List Text → Type 0
Titled none args = args ≡ []
Titled (some title) args = args ≡ codes "--title" ∷ title ∷ []

abbrev pub Noted : Text → Option Text → Option Text → List Text → Type 0
Noted project_dir (some notes) none args = args ≡ codes "--notes" ∷ notes ∷ []
Noted project_dir none (some file) args =
    args ≡ codes "--notes-file" ∷ join_path project_dir file ∷ []
Noted project_dir none none args = args ≡ codes "--generate-notes" ∷ []
Noted project_dir (some notes) (some file) args = ⊥

abbrev pub Flagged : Text → Bool → List Text → Type 0
Flagged flag false args = args ≡ []
Flagged flag true args = args ≡ flag ∷ []

-- The command before the assets: an upload to the release that is there, or its creation with the
-- title, the notes and the flags of the config.
abbrev pub Commanded : Text → Config → Text → Bool → List Text → Type 0
Commanded project_dir c tag true args =
    args ≡ codes "release" ∷ codes "upload" ∷ tag ∷ codes "--clobber" ∷ []
Commanded project_dir c tag false args =
    (title notes draft prerelease : List Text) × Titled c.release.title title
    × Noted project_dir c.release.notes c.release.notes_file notes
    × Flagged (codes "--draft") c.release.draft draft
    × Flagged (codes "--prerelease") c.release.prerelease prerelease
    × (args ≡ codes "release" ∷ codes "create" ∷ tag ∷ (title ++ (notes ++ (draft ++ prerelease))))

titled : (title : Option Text) → Titled title (title_args title)
titled none = refl
titled (some title) = refl

flagged : (flag : Text) (on : Bool) → Flagged flag on (flag_args on flag)
flagged flag true = refl
flagged flag false = refl

noted :
    (project_dir : Text) (notes file : Option Text) (args : List Text)
    → notes_args project_dir notes file ≡ ok args
    → Noted project_dir notes file args
noted project_dir (some notes) none args h = cc
noted project_dir none (some file) args h = cc
noted project_dir none none args h = cc
noted project_dir (some notes) (some file) args h = absurd (cc)

args_made :
    (project_dir : Text) (c : Config) (tag : Text) (known : Bool)
    → validate_output_and_release c ≡ ok tt
    → (args : List Text) × (release_args project_dir c tag known ≡ ok args)
      × Commanded project_dir c tag known args
unfolding release_args create_args validate_output_and_release
args_made project_dir c tag true h =
    (codes "release" ∷ codes "upload" ∷ tag ∷ codes "--clobber" ∷ [], refl, refl)
args_made project_dir c tag false h =
    elim (Result-cases (notes_args project_dir c.release.notes c.release.notes_file)) [
      | inl (notes, e) ↦ (
        create_args c tag notes,
        rw e refl,
        (
          title_args c.release.title,
          notes,
          flag_args c.release.draft (codes "--draft"),
          flag_args c.release.prerelease (codes "--prerelease"),
          titled c.release.title,
          noted project_dir c.release.notes c.release.notes_file notes e,
          flagged (codes "--draft") c.release.draft,
          flagged (codes "--prerelease") c.release.prerelease,
          refl,
        ),
      )
      | inr (both, e) ↦ absurd (ground arith)
    ]

-- If a config passes `validate`, gh is there, the build is left out or ends well, something is to be
-- attached, there is a tag, and `gh release` succeeds whatever its arguments, then the command
-- publishes under that tag: the two kinds of notes never stop it. It uploads to a release
-- that is there, or creates one with the title, the notes and the flags of the config; then
-- come the assets and nothing else, and these are the existing files of the kinds that the
-- config lists, or of all kinds.
pub release_publishes :
    (project_dir : Text) (given : Option Text) (no_build : Bool) (a : PublishAnswers) (c : Config)
    (tag : Text)
    → validate c ≡ ok tt
    → a.gh_available ≡ true
    → (no_build || a.built) ≡ true
    → is_empty (select_assets a.exists c (dist_dir_of project_dir c)) ≡ false
    → tag_of a given ≡ some tag
    → ((args : List Text) → a.gh_release args ≡ some true)
    → (lead : List Text) × (assets : List Text) × (publish project_dir given no_build a c
        ≡ ok (tag, lead ++ assets))
      × Commanded project_dir c tag (a.has_release tag) lead
      × Attached a.exists c (dist_dir_of project_dir c) assets
unfolding publish
release_publishes project_dir given no_build a c tag h available builds attached tagged succeeds =
    let (lead, made, commanded) =
      args_made project_dir c tag (a.has_release tag) (validate-Checked c h).output in
    let assets = select_assets a.exists c (dist_dir_of project_dir c) in
    let ready : (not no_build && not a.built) ≡ false = ground arith in
    (
      lead,
      assets,
      rw (publish, available, ready, attached, tagged, made, succeeds (lead ++ assets)) refl,
      commanded,
      select_assets-Attached a.exists c (dist_dir_of project_dir c),
    )
