-- ===== src/Guest/Landlock/Accepted.antt =====
-- That the kernel takes the rules of guest/src/landlock.rs.
use cargo_unikernel.Common.{
  ℕ, ◌≡◌, ◌≤◌, ◌<◌, refl, Bool, true, false, leb, List, [], ◌∷◌, some, ok, err, bit_and, All, inl,
  inr, ◌⊎◌, arith,
}
use cargo_unikernel.Std.Text.{Text, contains}
use cargo_unikernel.Guest.Landlock.{
  Features, PathRule, Grant, Calls, Presence, Ruleset, add_opened, not_opened, add_rule, add_rules,
  build_on, ruleset_of, build, rules_of,
}
use cargo_unikernel.Guest.Landlock.Fitting.{rights_for, Fitting, AllFit, rules_of-AllFit}
use cargo_unikernel.Guest.Landlock.Rights.{grant_of}

-- The grants that the paths which open ask for.
unfoldable pub granted_by : Calls → (Text → Bool) → List PathRule → List Grant
granted_by calls is_directory [] = []
granted_by calls is_directory (rule ∷ rules) =
    let rest = granted_by calls is_directory rules in
    elim (calls.open_path rule.path) [
      | ok _ ↦ grant_of rule (is_directory rule.path) ∷ rest
      | err _ ↦ rest
    ]

-- A path that opens, or may be absent.
abbrev pub Usable : Calls → PathRule → Type 0
Usable calls rule =
    (contains 0 rule.path ≡ false)
    × ((calls.open_path rule.path ≡ ok tt)
        ⊎ ((errno : ℕ) × (calls.open_path rule.path ≡ err errno)
            × (rule.presence ≡ Presence.optional_path)))

module _ (calls : Calls) (is_directory : Text → Bool)
    (stats : (path : Text) → calls.fstat path ≡ ok (is_directory path))
    (takes : (path : Text) (access : ℕ)
      → 0 < access
      → bit_and access (rights_for (is_directory path)) ≡ access
      → calls.add_path path access ≡ ok tt) where
  add_opened-grant_of :
      (rule : PathRule)
      → Fitting rule.access
      → add_opened calls rule ≡ ok (grant_of rule (is_directory rule.path) ∷ [])
  unfolding add_opened
  add_opened-grant_of rule fit =
      let fits = fit (is_directory rule.path) in
      rw (stats rule.path, takes rule.path _ fits.0 fits.1) refl

  granted_by-opens :
      (rule : PathRule) (rules : List PathRule)
      → calls.open_path rule.path ≡ ok tt
      → granted_by calls is_directory (rule ∷ rules)
        ≡ grant_of rule (is_directory rule.path) ∷ granted_by calls is_directory rules
  unfolding granted_by
  granted_by-opens rule rules h = rw (granted_by, h) refl

  granted_by-absent :
      (rule : PathRule) (rules : List PathRule) (errno : ℕ)
      → calls.open_path rule.path ≡ err errno
      → granted_by calls is_directory (rule ∷ rules) ≡ granted_by calls is_directory rules
  unfolding granted_by
  granted_by-absent rule rules errno h = rw (granted_by, h) refl

  -- One rule, in front of the others.
  add_rule-granted_by :
      (rule : PathRule) (rules : List PathRule)
      → Fitting rule.access
      → Usable calls rule
      → add_rules calls rules ≡ ok (granted_by calls is_directory rules)
      → add_rules calls (rule ∷ rules) ≡ ok (granted_by calls is_directory (rule ∷ rules))
  unfolding add_rules add_rule not_opened granted_by
  add_rule-granted_by rule rules fit (no_nul, inl opens) h =
      rw (no_nul, opens, add_opened-grant_of rule fit, h, granted_by-opens rule rules opens) refl
  add_rule-granted_by rule rules fit (no_nul, inr (errno, absent, may)) h =
      rw (no_nul, absent, may, h, granted_by-absent rule rules errno absent) refl

  nothing_added : add_rules calls [] ≡ ok (granted_by calls is_directory [])
  unfolding add_rules granted_by
  nothing_added = refl

  add_rules-granted_by :
      (rules : List PathRule)
      → AllFit rules
      → All (Usable calls) rules
      → add_rules calls rules ≡ ok (granted_by calls is_directory rules)
  add_rules-granted_by [] fit usable = nothing_added
  add_rules-granted_by (rule ∷ rules) fit usable =
      add_rule-granted_by rule rules fit.0 usable.0 (add_rules-granted_by rules fit.1 usable.1)

  -- On a kernel of ABI 5 or later that creates a ruleset, stats every path, and takes every rule
  -- that has some right and only governed ones, on a file only a file's: if every path of the rules
  -- opens, or is optional and absent, then `build` does not stop the boot, and the grants are those
  -- of the paths that open, in order.
  pub build_accepted :
      (features : Features) (payload_dir : Text) (extra_read extra_read_write : List Text) (abi : ℕ)
      → calls.abi_version ≡ some abi
      → 5 ≤ abi
      → calls.create_ruleset ≡ ok tt
      → All (Usable calls) (rules_of features payload_dir extra_read extra_read_write)
      → (built : Ruleset) × (build calls features payload_dir extra_read extra_read_write
          ≡ ok built)
        × (built.granted
            ≡ granted_by calls is_directory
                (rules_of features payload_dir extra_read extra_read_write))
  unfolding build build_on ruleset_of granted_by
  build_accepted features payload_dir extra_read extra_read_write abi version enough created
        usable =
      let at_least : leb 5 abi ≡ true = ground arith in
      let added =
        add_rules-granted_by (rules_of features payload_dir extra_read extra_read_write)
          (rules_of-AllFit features payload_dir extra_read extra_read_write) usable in
      (
        ruleset_of abi (
            granted_by calls is_directory
              (rules_of features payload_dir extra_read extra_read_write)),
        rw (version, at_least, created, added) refl,
        refl,
      )
