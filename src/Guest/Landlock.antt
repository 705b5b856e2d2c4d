-- ===== src/Guest/Landlock.antt =====
-- guest/src/landlock.rs: the access rights, the rules by path, and `build`, whose system calls'
-- answers are the input. The ruleset is what the kernel was told.
mod Access
pub mod Rights
pub mod Roots
pub mod Permits
pub mod Built
pub mod Fitting
pub mod Accepted
pub use Access.{
  min_abi, fs_execute, fs_write_file, fs_read_file, fs_read_dir, fs_remove_dir, fs_remove_file,
  fs_make_char, fs_make_dir, fs_make_reg, fs_make_sock, fs_make_fifo, fs_make_block, fs_make_sym,
  fs_refer, fs_truncate, fs_ioctl_dev, scope_abstract_unix_socket, scope_signal, all_of, read,
  read_exec, read_write, dev_read_write, dev_read, dev_pty, dev_attestation, file_rights,
}
use cargo_unikernel.Common.{
  ℕ, ◌^◌, Bool, true, false, leb, ◌==◌, if◌then◌else◌, List, [], ◌∷◌, ◌++◌, map, Option, none, some,
  Result, ok, err, ◌>>=◌, ◌>>◌, reject_if, ok_or, bit_and, bit_or, not,
}
use cargo_unikernel.Std.Text.{Text, codes, contains}

unfoldable pub ruleset_attr_size : ℕ → ℕ
ruleset_attr_size abi = if leb 6 abi then 24 else if leb 4 abi then 16 else 8

unfoldable pub handled_access_fs : ℕ → ℕ
handled_access_fs abi =
    let access = all_of (
      fs_execute ∷ fs_write_file ∷ fs_read_file ∷ fs_read_dir ∷ fs_remove_dir ∷ fs_remove_file
      ∷ fs_make_char ∷ fs_make_dir ∷ fs_make_reg ∷ fs_make_sock ∷ fs_make_fifo ∷ fs_make_block
      ∷ fs_make_sym ∷ fs_refer ∷ fs_truncate ∷ []) in
    if leb 5 abi then bit_or access fs_ioctl_dev else access

pub data Presence : Type 0 where
  required_path optional_path : Presence

pub record PathRule : Type 0 where
  pub path : Text
  pub access : ℕ
  pub presence : Presence

abbrev pub required : Text → ℕ → PathRule
required path access = record { path = path; access = access; presence = Presence.required_path }

abbrev pub optional : Text → ℕ → PathRule
optional path access = record { path = path; access = access; presence = Presence.optional_path }

-- The features `danger-allow-write-execute` and `sev-snp`.
pub record Features : Type 0 where
  pub allow_write_execute : Bool
  pub sev_snp : Bool

unfoldable pub scratch : Features → ℕ
scratch features = if features.allow_write_execute then bit_or read_write fs_execute else read_write

unfoldable pub builtin_rules : Features → Text → List PathRule
unfolding scratch
builtin_rules features payload_dir =
    required payload_dir read_exec
    ∷ required (codes "/tmp") (scratch features)
    ∷ required (codes "/var") (scratch features)
    ∷ required (codes "/var/tmp") (scratch features)
    ∷ required (codes "/run") read_write
    ∷ required (codes "/dev/shm") (scratch features)
    ∷ optional (codes "/etc") read
    ∷ required (codes "/proc") read
    ∷ optional (codes "/sys/devices/system/cpu") read
    ∷ optional (codes "/dev/null") dev_read_write
    ∷ optional (codes "/dev/zero") dev_read_write
    ∷ optional (codes "/dev/full") dev_read_write
    ∷ optional (codes "/dev/random") dev_read
    ∷ optional (codes "/dev/urandom") dev_read
    ∷ optional (codes "/dev/ptmx") dev_pty
    ∷ optional (codes "/dev/pts") dev_pty
    ∷ (if features.sev_snp then optional (codes "/dev/sev-guest") dev_attestation ∷ [] else [])

-- What the system calls answer: the ABI version (none where the query fails), the ruleset's
-- creation, `open` with O_PATH, whether `fstat` finds a directory, and `landlock_add_rule`. An
-- error is its errno.
pub record Calls : Type 0 where
  pub abi_version : Option ℕ
  pub create_ruleset : Result ℕ (Unit {0})
  pub open_path : Text → Result ℕ (Unit {0})
  pub fstat : Text → Result ℕ Bool
  pub add_path : Text → ℕ → Result ℕ (Unit {0})

pub data LandlockFatal : Type 0 where
  abi_too_low : LandlockFatal
  create_failed : ℕ → LandlockFatal
  nul_in_path : Text → LandlockFatal
  open_failed stat_failed add_failed : Text → ℕ → LandlockFatal

unfoldable pub allowed_access : Bool → ℕ → ℕ
allowed_access is_directory access = if is_directory then access else bit_and access file_rights

pub record Grant : Type 0 where
  pub path : Text
  pub allowed_access : ℕ

abbrev pub fail_with {ℓ} : {A : Type ℓ} → (ℕ → LandlockFatal) → Result ℕ A → Result LandlockFatal A
fail_with f (ok a) = ok a
fail_with f (err errno) = err (f errno)

unfoldable pub add_opened : Calls → PathRule → Result LandlockFatal (List Grant)
unfolding allowed_access
add_opened calls rule = do
  is_directory ← fail_with (stat_failed rule.path) (calls.fstat rule.path)
  let access = allowed_access is_directory rule.access
  fail_with (add_failed rule.path) (calls.add_path rule.path access)
  ok (record { path = rule.path; allowed_access = access } ∷ [])

-- A path that does not open is skipped if it is optional.
unfoldable pub not_opened : PathRule → ℕ → Result LandlockFatal (List Grant)
not_opened rule errno = elim rule.presence [
  | Presence.optional_path ↦ ok []
  | Presence.required_path ↦ err (open_failed rule.path errno)
]

unfoldable pub add_rule : Calls → PathRule → Result LandlockFatal (List Grant)
unfolding add_opened not_opened
add_rule calls rule =
    if contains 0 rule.path then err (nul_in_path rule.path) else elim (calls.open_path rule.path) [
      | ok _ ↦ add_opened calls rule
      | err errno ↦ not_opened rule errno
    ]

unfoldable pub add_rules : Calls → List PathRule → Result LandlockFatal (List Grant)
unfolding add_rule
add_rules calls [] = ok []
add_rules calls (rule ∷ rules) = do
  granted ← add_rule calls rule
  rest ← add_rules calls rules
  ok (granted ++ rest)

pub record Ruleset : Type 0 where
  pub handled_access_fs : ℕ
  pub handled_access_net : ℕ
  pub scoped : ℕ
  pub attr_size : ℕ
  pub granted : List Grant

unfoldable pub rules_of : Features → Text → List Text → List Text → List PathRule
unfolding builtin_rules
rules_of features payload_dir extra_read extra_read_write =
    builtin_rules features payload_dir
    ++ (map (λ path. required path read) extra_read
        ++ map (λ path. required path read_write) extra_read_write)

-- The attributes for an ABI, and what was added.
unfoldable pub ruleset_of : ℕ → List Grant → Ruleset
unfolding ruleset_attr_size handled_access_fs
ruleset_of abi granted =
    let governed = handled_access_fs abi in
    record {
      handled_access_fs = governed;
      handled_access_net = 0;
      scoped = if leb 6 abi then bit_or scope_abstract_unix_socket scope_signal else 0;
      attr_size = ruleset_attr_size abi;
      granted = granted;
    }

unfoldable pub build_on : Calls → List PathRule → ℕ → Result LandlockFatal Ruleset
unfolding add_rules ruleset_of
build_on calls rules abi = do
  reject_if (not (leb min_abi abi)) abi_too_low
  fail_with create_failed calls.create_ruleset
  granted ← add_rules calls rules
  ok (ruleset_of abi granted)

unfoldable pub build :
    Calls → Features → Text → List Text → List Text → Result LandlockFatal Ruleset
unfolding build_on rules_of
build calls features payload_dir extra_read extra_read_write = do
  abi ← ok_or calls.abi_version abi_too_low
  build_on calls (rules_of features payload_dir extra_read extra_read_write) abi
