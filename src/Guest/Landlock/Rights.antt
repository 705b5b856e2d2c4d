-- ===== src/Guest/Landlock/Rights.antt =====
-- The rights of the rules of guest/src/landlock.rs.
use cargo_unikernel.Common.{
  ℕ, ◌≡◌, refl, Bool, true, false, if◌then◌else◌, List, [], ◌∷◌, ◌++◌, map, bit_and, bit_or, All,
  ◌⊎◌, inl, inr,
}
use cargo_unikernel.Std.Text.{Text, codes}
use cargo_unikernel.Guest.Landlock.{
  PathRule, Grant, read, read_exec, read_write, dev_read_write, dev_read, dev_pty, dev_attestation,
  required, optional, allowed_access, builtin_rules, scratch, rules_of, all_of, fs_execute,
  fs_make_char, fs_make_block, fs_write_file, fs_truncate, fs_make_reg, fs_remove_dir,
  fs_remove_file, fs_make_dir, fs_make_sock, fs_make_fifo, fs_make_sym, fs_refer, Presence,
}

-- The rights that change files or make them.
abbrev pub writing : ℕ
writing = all_of (
    fs_write_file ∷ fs_truncate ∷ fs_remove_dir ∷ fs_remove_file ∷ fs_make_dir ∷ fs_make_reg
    ∷ fs_make_sock ∷ fs_make_fifo ∷ fs_make_sym ∷ fs_refer ∷ [])

-- Of a grant: it has only governed rights, makes no device node, and does not execute unless it
-- is that of the payload and does not write.
abbrev pub Confined : Text → Grant → Type 0
Confined payload_dir grant =
    (bit_and grant.allowed_access 0xFFFF ≡ grant.allowed_access)
    × (bit_and grant.allowed_access (bit_or fs_make_char fs_make_block) ≡ 0)
    × ((bit_and grant.allowed_access fs_execute ≡ 0)
        ⊎ ((grant.path ≡ payload_dir) × (bit_and grant.allowed_access writing ≡ 0)))

-- The grant of a rule whose path is a directory, or not.
abbrev pub grant_of : PathRule → Bool → Grant
grant_of rule is_directory = record {
  path = rule.path;
  allowed_access = allowed_access is_directory rule.access;
}

abbrev pub Each : (Grant → Type 0) → PathRule → Type 0
Each P rule = (is_directory : Bool) → P (grant_of rule is_directory)

module _ (payload_dir path : Text) (presence : Presence) where
  abbrev ConfinedAt : ℕ → Type 0
  ConfinedAt access =
      Each (Confined payload_dir) (record { path = path; access = access; presence = presence })

  read-Confined : ConfinedAt read
  unfolding allowed_access
  read-Confined true = (refl, refl, inl refl)
  read-Confined false = (refl, refl, inl refl)

  read_write-Confined : ConfinedAt read_write
  unfolding allowed_access
  read_write-Confined true = (refl, refl, inl refl)
  read_write-Confined false = (refl, refl, inl refl)

  dev_read_write-Confined : ConfinedAt dev_read_write
  unfolding allowed_access
  dev_read_write-Confined true = (refl, refl, inl refl)
  dev_read_write-Confined false = (refl, refl, inl refl)

  dev_read-Confined : ConfinedAt dev_read
  unfolding allowed_access
  dev_read-Confined true = (refl, refl, inl refl)
  dev_read-Confined false = (refl, refl, inl refl)

  dev_pty-Confined : ConfinedAt dev_pty
  unfolding allowed_access
  dev_pty-Confined true = (refl, refl, inl refl)
  dev_pty-Confined false = (refl, refl, inl refl)

payload-Confined :
    (payload_dir : Text) → Each (Confined payload_dir) (required payload_dir read_exec)
unfolding allowed_access
payload-Confined payload_dir true = (refl, refl, inr (refl, refl))
payload-Confined payload_dir false = (refl, refl, inr (refl, refl))

abbrev pub Confining : Text → List PathRule → Type 0
Confining payload_dir rules = All (Each (Confined payload_dir)) rules

builtin_rules-Confined :
    (sev_snp : Bool) (payload_dir : Text)
    → Confining payload_dir
        (builtin_rules (record { allow_write_execute = false; sev_snp = sev_snp }) payload_dir)
unfolding builtin_rules scratch
builtin_rules-Confined sev_snp payload_dir = (
  payload-Confined payload_dir,
  (
    read_write-Confined payload_dir (codes "/tmp") Presence.required_path,
    (
      read_write-Confined payload_dir (codes "/var") Presence.required_path,
      (
        read_write-Confined payload_dir (codes "/var/tmp") Presence.required_path,
        (
          read_write-Confined payload_dir (codes "/run") Presence.required_path,
          (
            read_write-Confined payload_dir (codes "/dev/shm") Presence.required_path,
            (
              read-Confined payload_dir (codes "/etc") Presence.optional_path,
              (
                read-Confined payload_dir (codes "/proc") Presence.required_path,
                (
                  read-Confined payload_dir (codes "/sys/devices/system/cpu")
                      Presence.optional_path,
                  (
                    dev_read_write-Confined payload_dir (codes "/dev/null") Presence.optional_path,
                    (
                      dev_read_write-Confined payload_dir (codes "/dev/zero")
                          Presence.optional_path,
                      (
                        dev_read_write-Confined payload_dir (codes "/dev/full")
                            Presence.optional_path,
                        (
                          dev_read-Confined payload_dir (codes "/dev/random")
                              Presence.optional_path,
                          (
                            dev_read-Confined payload_dir (codes "/dev/urandom")
                                Presence.optional_path,
                            (
                              dev_pty-Confined payload_dir (codes "/dev/ptmx")
                                  Presence.optional_path,
                              (
                                dev_pty-Confined payload_dir (codes "/dev/pts")
                                    Presence.optional_path,
                                attestation sev_snp,
                              ),
                            ),
                          ),
                        ),
                      ),
                    ),
                  ),
                ),
              ),
            ),
          ),
        ),
      ),
    ),
  ),
)
  where
    attestation :
        (on : Bool)
        → Confining payload_dir
            (if on then optional (codes "/dev/sev-guest") dev_attestation ∷ [] else [])
    attestation true =
        (dev_pty-Confined payload_dir (codes "/dev/sev-guest") Presence.optional_path, tt)
    attestation false = tt

append-Confined :
    (payload_dir : Text) (rules others : List PathRule)
    → Confining payload_dir rules
    → Confining payload_dir others
    → Confining payload_dir (rules ++ others)
append-Confined payload_dir [] others a b = b
append-Confined payload_dir (rule ∷ rules) others a b =
    (a.0, append-Confined payload_dir rules others a.1 b)

extra-Confined :
    (payload_dir : Text) (access : ℕ)
    → ((path : Text) → Each (Confined payload_dir) (required path access))
    → (paths : List Text) → Confining payload_dir (map (λ path. required path access) paths)
extra-Confined payload_dir access h [] = tt
extra-Confined payload_dir access h (path ∷ paths) =
    (h path, extra-Confined payload_dir access h paths)

pub rules_of-Confined :
    (sev_snp : Bool) (payload_dir : Text) (extra_read extra_read_write : List Text)
    → Confining payload_dir (
        rules_of
          (record { allow_write_execute = false; sev_snp = sev_snp })
          payload_dir
          extra_read
          extra_read_write)
unfolding rules_of
rules_of-Confined sev_snp payload_dir extra_read extra_read_write =
    let required_path = Presence.required_path in
    append-Confined payload_dir
      (builtin_rules (record { allow_write_execute = false; sev_snp = sev_snp }) payload_dir) _
      (builtin_rules-Confined sev_snp payload_dir)
      (append-Confined payload_dir (map (λ path. required path read) extra_read) _
        (extra-Confined payload_dir read (λ path. read-Confined payload_dir path required_path)
          extra_read)
        (extra-Confined payload_dir read_write
          (λ path. read_write-Confined payload_dir path required_path) extra_read_write))
