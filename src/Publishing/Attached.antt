-- ===== src/Publishing/Attached.antt =====
-- Which files the release command of src/release.rs attaches, kind by kind.
use cargo_unikernel.Common.{
  ◌≡◌, refl, ◌∙◌, Bool, true, false, ◌&&◌, ◌||◌, ◌==◌, any, map, retain, List, [], ◌∷◌, ◌++◌,
  Option, none, some, Bool-cases, inl, inr,
}
use cargo_unikernel.Std.Text.{Text, codes}
use cargo_unikernel.Schema.Types.{Config, ReleaseAsset}
use cargo_unikernel.Publishing.{
  candidate_assets, is_selected, position, select_assets, join_path, host_path,
}

-- The files of a kind below `dist/`.
abbrev pub files_of : Text → ReleaseAsset → List Text
files_of name ReleaseAsset.bzimage = (name ++ codes ".bzImage") ∷ []
files_of name ReleaseAsset.cpio = (name ++ codes ".cpio") ∷ []
files_of name ReleaseAsset.uki = (name ++ codes ".efi") ∷ []
files_of name ReleaseAsset.binary = (name ++ codes ".bin") ∷ []
files_of name ReleaseAsset.measurement =
    codes "sev_measurement.txt" ∷ codes "sev_measurement.json" ∷ []
files_of name ReleaseAsset.ovmf = codes ".ovmf-cache/OVMF.fd" ∷ []

-- The kinds that the config lists, or all of them.
abbrev pub kinds_of : Option (List ReleaseAsset) → List ReleaseAsset
kinds_of (some kinds) = kinds
kinds_of none =
    ReleaseAsset.bzimage ∷ ReleaseAsset.cpio ∷ ReleaseAsset.uki ∷ ReleaseAsset.binary
    ∷ ReleaseAsset.measurement ∷ ReleaseAsset.ovmf ∷ []

-- The paths are, up to order and repetition, those of the files of the kinds that exist.
abbrev pub Attached : (Text → Bool) → Config → Text → List Text → Type 0
Attached exists c dist_dir paths =
    (test : Text → Bool)
    → any test paths
      ≡ any
          (λ kind.
            any (λ file. exists (join_path dist_dir file) && test (join_path dist_dir file))
              (files_of c.project.name kind))
          (kinds_of c.release.assets)

any-retained :
    (test exists : Text → Bool) (wanted : ReleaseAsset → Bool) (cs : List (ReleaseAsset × Text))
    → any test (retain exists (map (λ a. a.1) (retain (λ a. wanted a.0) cs)))
      ≡ any (λ a. wanted a.0 && (exists a.1 && test a.1)) cs
unfolding any retain
any-retained test exists wanted [] = refl
any-retained test exists wanted ((kind, path) ∷ cs) =
    let rest = any-retained test exists wanted cs in
    elim (Bool-cases (wanted kind)) [
      | inr unwanted ↦ rw unwanted rest
      | inl is_wanted ↦ rw is_wanted (elim (Bool-cases (exists path)) [
        | inl there ↦ rw (there, rest) refl
        | inr gone ↦ rw gone rest
      ])
    ]

split_or : (p q g a b : Bool) → ((p || q) && g || (a || b)) ≡ ((p && g || a) || (q && g || b))
split_or true q true a b = refl
split_or true true false a b = refl
split_or true false false a b = refl
split_or false true true true b = refl
split_or false true true false b = refl
split_or false true false a b = refl
split_or false false g a b = refl

module _ {A : Type 0} where
  any-false : (xs : List A) → any (λ x. false) xs ≡ false
  unfolding any
  any-false [] = refl
  any-false (x ∷ xs) = any-false xs

  any-or :
      (p q g : A → Bool) (xs : List A)
      → any (λ x. (p x || q x) && g x) xs ≡ (any (λ x. p x && g x) xs || any (λ x. q x && g x) xs)
  unfolding any
  any-or p q g [] = refl
  any-or p q g (x ∷ xs) =
      rw (any-or p q g xs)
        (split_or (p x) (q x) (g x) (any (λ x. p x && g x) xs) (any (λ x. q x && g x) xs))

module _ (c : Config) (dist_dir : Text) (good : Text → Bool) where
  -- The candidates of one kind.
  one_kind :
      (k : ReleaseAsset)
      → any (λ a. (position k == position a.0) && good a.1) (candidate_assets c dist_dir)
        ≡ any (λ file. good (join_path dist_dir file)) (files_of c.project.name k)
  unfolding candidate_assets host_path any
  one_kind ReleaseAsset.bzimage = refl
  one_kind ReleaseAsset.cpio = refl
  one_kind ReleaseAsset.uki = refl
  one_kind ReleaseAsset.binary = refl
  one_kind ReleaseAsset.measurement = refl
  one_kind ReleaseAsset.ovmf = refl

  listed_kinds :
      (kinds : List ReleaseAsset)
      → any (λ a. is_selected (some kinds) a.0 && good a.1) (candidate_assets c dist_dir)
        ≡ any
            (λ kind. any (λ file. good (join_path dist_dir file)) (files_of c.project.name kind))
            kinds
  unfolding any
  listed_kinds [] = any-false (candidate_assets c dist_dir)
  listed_kinds (k ∷ kinds) =
      any-or (λ a. position k == position a.0) (λ a. is_selected (some kinds) a.0) (λ a. good a.1)
        (candidate_assets c dist_dir)
      ∙ rw (one_kind k, listed_kinds kinds) refl

  all_kinds :
      (selected : Option (List ReleaseAsset))
      → any (λ a. is_selected selected a.0 && good a.1) (candidate_assets c dist_dir)
        ≡ any
            (λ kind. any (λ file. good (join_path dist_dir file)) (files_of c.project.name kind))
            (kinds_of selected)
  unfolding candidate_assets any
  all_kinds (some kinds) = listed_kinds kinds
  all_kinds none = listed_kinds (kinds_of none)

pub select_assets-Attached :
    (exists : Text → Bool) (c : Config) (dist_dir : Text)
    → Attached exists c dist_dir (select_assets exists c dist_dir)
unfolding select_assets
select_assets-Attached exists c dist_dir test =
    any-retained test exists (is_selected c.release.assets) (candidate_assets c dist_dir)
    ∙ all_kinds c dist_dir (λ path. exists path && test path) c.release.assets
