-- ===== src/Guest/Landlock/Fitting.antt =====
-- The kernel's conditions on the rights of a rule, and that the rules of guest/src/landlock.rs
-- meet them.
use cargo_unikernel.Common.{
  ℕ, ◌≡◌, ◌<◌, refl, Bool, true, false, if◌then◌else◌, List, [], ◌∷◌, ◌++◌, map, bit_and, bit_or,
  All, Bool-cases, inl, inr, arith,
}
use cargo_unikernel.Std.Text.{Text, codes}
use cargo_unikernel.Guest.Landlock.{
  Features, PathRule, rules_of, builtin_rules, scratch, allowed_access, file_rights, required,
  optional, read, read_exec, read_write, dev_read_write, dev_read, dev_pty, dev_attestation,
}

-- The rights that the kernel takes for a path that is a directory, or not.
abbrev pub rights_for : Bool → ℕ
rights_for is_directory = if is_directory then 0xFFFF else file_rights

abbrev pub FitsOn : Bool → ℕ → Type 0
FitsOn is_directory access =
    (0 < allowed_access is_directory access)
    × (bit_and (allowed_access is_directory access) (rights_for is_directory)
        ≡ allowed_access is_directory access)

abbrev pub Fitting : ℕ → Type 0
Fitting access = (is_directory : Bool) → FitsOn is_directory access

read-Fitting : Fitting read
unfolding allowed_access
read-Fitting true = (omega arith, refl)
read-Fitting false = (omega arith, refl)

read_exec-Fitting : Fitting read_exec
unfolding allowed_access
read_exec-Fitting true = (omega arith, refl)
read_exec-Fitting false = (omega arith, refl)

read_write-Fitting : Fitting read_write
unfolding allowed_access
read_write-Fitting true = (omega arith, refl)
read_write-Fitting false = (omega arith, refl)

dev_read_write-Fitting : Fitting dev_read_write
unfolding allowed_access
dev_read_write-Fitting true = (omega arith, refl)
dev_read_write-Fitting false = (omega arith, refl)

dev_read-Fitting : Fitting dev_read
unfolding allowed_access
dev_read-Fitting true = (omega arith, refl)
dev_read-Fitting false = (omega arith, refl)

dev_pty-Fitting : Fitting dev_pty
unfolding allowed_access
dev_pty-Fitting true = (omega arith, refl)
dev_pty-Fitting false = (omega arith, refl)

scratch-Fitting : (features : Features) → Fitting (scratch features)
unfolding scratch allowed_access
scratch-Fitting features is_directory = elim (Bool-cases features.allow_write_execute) [
  | inl on ↦ rw on (executable is_directory)
  | inr off ↦ rw off (read_write-Fitting is_directory)
]
  where
    executable : Fitting (bit_or read_write 1)
    executable true = (omega arith, refl)
    executable false = (omega arith, refl)

abbrev pub AllFit : List PathRule → Type 0
AllFit rules = All (λ rule. Fitting rule.access) rules

builtin_rules-AllFit :
    (features : Features) (payload_dir : Text) → AllFit (builtin_rules features payload_dir)
unfolding builtin_rules
builtin_rules-AllFit features payload_dir = (
  read_exec-Fitting,
  (
    scratch-Fitting features,
    (
      scratch-Fitting features,
      (
        scratch-Fitting features,
        (
          read_write-Fitting,
          (
            scratch-Fitting features,
            (
              read-Fitting,
              (
                read-Fitting,
                (
                  read-Fitting,
                  (
                    dev_read_write-Fitting,
                    (
                      dev_read_write-Fitting,
                      (
                        dev_read_write-Fitting,
                        (
                          dev_read-Fitting,
                          (
                            dev_read-Fitting,
                            (dev_pty-Fitting, (dev_pty-Fitting, attestation features.sev_snp)),
                          ),
                        ),
                      ),
                    ),
                  ),
                ),
              ),
            ),
          ),
        ),
      ),
    ),
  ),
)
  where
    attestation :
        (on : Bool)
        → AllFit (if on then optional (codes "/dev/sev-guest") dev_attestation ∷ [] else [])
    attestation true = (dev_pty-Fitting, tt)
    attestation false = tt

append-AllFit :
    (rules others : List PathRule) → AllFit rules → AllFit others → AllFit (rules ++ others)
append-AllFit [] others a b = b
append-AllFit (rule ∷ rules) others a b = (a.0, append-AllFit rules others a.1 b)

extra-AllFit :
    (access : ℕ)
    → Fitting access
    → (paths : List Text) → AllFit (map (λ path. required path access) paths)
extra-AllFit access h [] = tt
extra-AllFit access h (path ∷ paths) = (h, extra-AllFit access h paths)

pub rules_of-AllFit :
    (features : Features) (payload_dir : Text) (extra_read extra_read_write : List Text)
    → AllFit (rules_of features payload_dir extra_read extra_read_write)
unfolding rules_of
rules_of-AllFit features payload_dir extra_read extra_read_write =
    append-AllFit (builtin_rules features payload_dir) _ (builtin_rules-AllFit features payload_dir)
      (append-AllFit (map (λ path. required path read) extra_read) _
        (extra-AllFit read read-Fitting extra_read)
        (extra-AllFit read_write read_write-Fitting extra_read_write))
