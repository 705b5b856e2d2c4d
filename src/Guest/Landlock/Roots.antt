-- ===== src/Guest/Landlock/Roots.antt =====
-- Below which paths the rules of guest/src/landlock.rs let the app write.
use cargo_unikernel.Common.{
  ℕ, ◌≡◌, refl, subst, ◌∙◌, append_assoc, Bool, true, false, ◌||◌, if◌then◌else◌, List, [], ◌∷◌,
  ◌++◌, map, any, bit_and, All, ◌⊎◌, inl, inr,
}
use cargo_unikernel.Std.Text.{Text, codes, text_eq, text_eq_iff}
use cargo_unikernel.Std.Solid.{any-append}
use cargo_unikernel.Guest.Landlock.{
  PathRule, Grant, Presence, read, read_exec, read_write, dev_read, dev_read_write, dev_pty,
  dev_attestation, required, optional, allowed_access, builtin_rules, scratch, rules_of,
}
use cargo_unikernel.Guest.Landlock.Rights.{writing, Each}

-- The scratch directories and the devices.
abbrev pub scratch_and_devices : List Text
scratch_and_devices =
    codes "/tmp"
    ∷ codes "/var"
    ∷ codes "/var/tmp"
    ∷ codes "/run"
    ∷ codes "/dev/shm"
    ∷ codes "/dev/null"
    ∷ codes "/dev/zero"
    ∷ codes "/dev/full"
    ∷ codes "/dev/ptmx"
    ∷ codes "/dev/pts"
    ∷ codes "/dev/sev-guest"
    ∷ []

abbrev pub write_roots : List Text → List Text
write_roots extra_read_write = scratch_and_devices ++ extra_read_write

-- Of a grant: it has no right to change anything, or its path is one of the roots.
abbrev pub Rooted : List Text → Grant → Type 0
Rooted extra grant =
    (bit_and grant.allowed_access writing ≡ 0)
    ⊎ (any (text_eq grant.path) (write_roots extra) ≡ true)

module _ (extra : List Text) where
  abbrev RootedAt : Text → Presence → ℕ → Type 0
  RootedAt path presence access =
      Each (Rooted extra) (record { path = path; access = access; presence = presence })

  read-Rooted : (path : Text) (presence : Presence) → RootedAt path presence read
  unfolding allowed_access
  read-Rooted path presence true = inl refl
  read-Rooted path presence false = inl refl

  dev_read-Rooted : (path : Text) (presence : Presence) → RootedAt path presence dev_read
  unfolding allowed_access
  dev_read-Rooted path presence true = inl refl
  dev_read-Rooted path presence false = inl refl

  read_exec-Rooted : (path : Text) (presence : Presence) → RootedAt path presence read_exec
  unfolding allowed_access
  read_exec-Rooted path presence true = inl refl
  read_exec-Rooted path presence false = inl refl

  abbrev AmongRoots : Text → Type 0
  AmongRoots path = any (text_eq path) (write_roots extra) ≡ true

  listed-Rooted :
      (path : Text) (presence : Presence) (access : ℕ)
      → AmongRoots path
      → RootedAt path presence access
  listed-Rooted path presence access h is_directory = inr h

  builtin_rules-Rooted :
      (sev_snp : Bool) (payload_dir : Text)
      → All
          (Each (Rooted extra))
          (builtin_rules (record { allow_write_execute = false; sev_snp = sev_snp }) payload_dir)
  unfolding builtin_rules scratch any text_eq
  builtin_rules-Rooted sev_snp payload_dir =
      let a_must = Presence.required_path in
      let a_may = Presence.optional_path in
      (
        read_exec-Rooted payload_dir a_must,
        (
          listed-Rooted (codes "/tmp") a_must read_write refl,
          (
            listed-Rooted (codes "/var") a_must read_write refl,
            (
              listed-Rooted (codes "/var/tmp") a_must read_write refl,
              (
                listed-Rooted (codes "/run") a_must read_write refl,
                (
                  listed-Rooted (codes "/dev/shm") a_must read_write refl,
                  (
                    read-Rooted (codes "/etc") a_may,
                    (
                      read-Rooted (codes "/proc") a_must,
                      (
                        read-Rooted (codes "/sys/devices/system/cpu") a_may,
                        (
                          listed-Rooted (codes "/dev/null") a_may dev_read_write refl,
                          (
                            listed-Rooted (codes "/dev/zero") a_may dev_read_write refl,
                            (
                              listed-Rooted (codes "/dev/full") a_may dev_read_write refl,
                              (
                                dev_read-Rooted (codes "/dev/random") a_may,
                                (
                                  dev_read-Rooted (codes "/dev/urandom") a_may,
                                  (
                                    listed-Rooted (codes "/dev/ptmx") a_may dev_pty refl,
                                    (
                                      listed-Rooted (codes "/dev/pts") a_may dev_pty refl,
                                      attestation sev_snp,
                                    ),
                                  ),
                                ),
                              ),
                            ),
                          ),
                        ),
                      ),
                    ),
                  ),
                ),
              ),
            ),
          ),
        ),
      )
    where
      attestation :
          (on : Bool)
          → All
              (Each (Rooted extra))
              (if on then optional (codes "/dev/sev-guest") dev_attestation ∷ [] else [])
      attestation true =
          (listed-Rooted (codes "/dev/sev-guest") Presence.optional_path dev_attestation refl, tt)
      attestation false = tt

  append-All :
      (rules others : List PathRule)
      → All (Each (Rooted extra)) rules
      → All (Each (Rooted extra)) others
      → All (Each (Rooted extra)) (rules ++ others)
  append-All [] others a b = b
  append-All (rule ∷ rules) others a b = (a.0, append-All rules others a.1 b)

  reads-Rooted :
      (paths : List Text) → All (Each (Rooted extra)) (map (λ path. required path read) paths)
  reads-Rooted [] = tt
  reads-Rooted (path ∷ paths) = (read-Rooted path Presence.required_path, reads-Rooted paths)

  extra_listed :
      (before paths : List Text) → before ++ paths ≡ write_roots extra → All AmongRoots paths
  unfolding any
  extra_listed before [] h = tt
  extra_listed before (path ∷ paths) h = (
    subst (λ roots. any (text_eq path) roots ≡ true) h
        (any-append (text_eq path) before (path ∷ paths)
          ∙ rw ((text_eq_iff path path).1 refl) (or-true (any (text_eq path) before))),
    extra_listed (before ++ path ∷ []) paths (append_assoc before (path ∷ []) paths ∙ h),
  )
    where
      or-true : (b : Bool) → (b || true) ≡ true
      or-true true = refl
      or-true false = refl

  writes-Rooted :
      (paths : List Text)
      → All AmongRoots paths
      → All (Each (Rooted extra)) (map (λ path. required path read_write) paths)
  writes-Rooted [] h = tt
  writes-Rooted (path ∷ paths) h =
      (listed-Rooted path Presence.required_path read_write h.0, writes-Rooted paths h.1)

  pub rules_of-Rooted :
      (sev_snp : Bool) (payload_dir : Text) (extra_read : List Text)
      → All (Each (Rooted extra)) (
          rules_of
            (record { allow_write_execute = false; sev_snp = sev_snp })
            payload_dir
            extra_read
            extra)
  unfolding rules_of
  rules_of-Rooted sev_snp payload_dir extra_read =
      append-All
        (builtin_rules (record { allow_write_execute = false; sev_snp = sev_snp }) payload_dir) _
        (builtin_rules-Rooted sev_snp payload_dir)
        (append-All (map (λ path. required path read) extra_read) _ (reads-Rooted extra_read)
          (writes-Rooted extra (extra_listed scratch_and_devices extra refl)))
