-- ===== src/Examples/Sandbox.antt =====
-- The theorems on the sandbox of the app, at a concrete kernel and ruleset.
use cargo_unikernel.Common.{
  zero, suc, drop, leb, Option, none, ℕ, ◌≡◌, ◌<◌, refl, Bool, true, false, ◌&&◌, not, ltb, ◌==◌,
  ==_iff, if◌then◌else◌, List, [], ◌∷◌, some, Result, ok, err, bit_and, arith, inl, inr, All,
}
use cargo_unikernel.Std.Text.{Text, codes, text_eq, starts_with, contains}
use cargo_unikernel.Guest.Seccomp.{
  SockFilter, load_word, jump_eq, jump_ge, return_k, seccomp_ret_kill_process, arch_gate_program,
}
use cargo_unikernel.Guest.Seccomp.Gate.{arch_gate_decides}
use cargo_unikernel.Guest.Landlock.{Features, Calls, Ruleset, build, rules_of, builtin_rules}
use cargo_unikernel.Guest.Landlock.Permits.{Sandboxed}
use cargo_unikernel.Guest.Landlock.Built.{build_confines}
use cargo_unikernel.Guest.Landlock.Fitting.{rights_for}
use cargo_unikernel.Guest.Landlock.Accepted.{Usable, granted_by, build_accepted}

-- Everything is a directory but the devices.
unfoldable is_directory : Text → Bool
is_directory path = not (starts_with (codes "/dev/") path)

-- Takes what the documentation says, and refuses the rest with EINVAL.
unfoldable take_rule : Text → ℕ → Result ℕ (Unit {0})
unfolding is_directory
take_rule path access =
    if ltb 0 access && (bit_and access (rights_for (is_directory path)) == access)
    then ok tt
    else err 22

-- A kernel of ABI 6 without an attestation device.
abbrev kernel : Calls
kernel = record {
  abi_version = some 6;
  create_ruleset = ok tt;
  open_path = λ path. if text_eq path (codes "/dev/sev-guest") then err 2 else ok tt;
  fstat = λ path. ok (is_directory path);
  add_path = take_rule;
}

kernel_takes :
    (path : Text) (access : ℕ)
    → 0 < access
    → bit_and access (rights_for (is_directory path)) ≡ access
    → take_rule path access ≡ ok tt
unfolding take_rule
kernel_takes path access some_right governed =
    let positive : ltb 0 access ≡ true = ground arith in
    rw (positive, (==_iff (bit_and access (rights_for (is_directory path))) access).1 governed) refl

abbrev sev_snp_guest : Features
sev_snp_guest = record { allow_write_execute = false; sev_snp = true }

abbrev data_dir : List Text
data_dir = codes "/srv/data" ∷ []

abbrev cache_dir : List Text
cache_dir = codes "/srv/cache" ∷ []

paths_open : All (Usable kernel) (rules_of sev_snp_guest (codes "/payload") data_dir cache_dir)
unfolding rules_of builtin_rules contains text_eq
paths_open = (
  (refl, inl refl),
  (
    (refl, inl refl),
    (
      (refl, inl refl),
      (
        (refl, inl refl),
        (
          (refl, inl refl),
          (
            (refl, inl refl),
            (
              (refl, inl refl),
              (
                (refl, inl refl),
                (
                  (refl, inl refl),
                  (
                    (refl, inl refl),
                    (
                      (refl, inl refl),
                      (
                        (refl, inl refl),
                        (
                          (refl, inl refl),
                          (
                            (refl, inl refl),
                            (
                              (refl, inl refl),
                              (
                                (refl, inl refl),
                                (
                                  (refl, inr (2, refl, refl)),
                                  ((refl, inl refl), ((refl, inl refl), tt)),
                                ),
                              ),
                            ),
                          ),
                        ),
                      ),
                    ),
                  ),
                ),
              ),
            ),
          ),
        ),
      ),
    ),
  ),
)

build_accepted_example :
    (built : Ruleset) × (build kernel sev_snp_guest (codes "/payload") data_dir cache_dir
      ≡ ok built)
    × (built.granted
        ≡ granted_by kernel is_directory
            (rules_of sev_snp_guest (codes "/payload") data_dir cache_dir))
build_accepted_example =
    build_accepted kernel is_directory (λ path. refl) kernel_takes sev_snp_guest (codes "/payload")
      data_dir cache_dir 6 refl (omega arith) refl paths_open

-- What the kernel was told.
sandbox :
    (built : Ruleset) × (build kernel sev_snp_guest (codes "/payload") data_dir cache_dir
      ≡ ok built)
    × (built.granted
        ≡ granted_by kernel is_directory
            (rules_of sev_snp_guest (codes "/payload") data_dir cache_dir))
sandbox =
    build_accepted kernel is_directory (λ path. refl) kernel_takes sev_snp_guest (codes "/payload")
      data_dir cache_dir 6 refl (omega arith) refl paths_open

-- A file in the payload's directory.
abbrev below_payload : Text → Bool
below_payload path = text_eq path (codes "/payload")

build_confines_example : Sandboxed (codes "/payload") cache_dir below_payload sandbox.0
build_confines_example =
    build_confines kernel true (codes "/payload") data_dir cache_dir sandbox.0 below_payload
      sandbox.1

-- The call `ptrace` through the x32 ABI.
abbrev pub ptrace_x32 : ℕ → ℕ
ptrace_x32 offset = if offset == 4 then 0xC000003E else 0x40000065

-- A classic BPF machine that passes over a number of instructions first.
unfoldable pub interpret : ℕ → List SockFilter → ℕ → Option ℕ
interpret skipped [] a = none
interpret (suc n) (_ ∷ rest) a = interpret n rest a
interpret zero (i ∷ rest) a =
    if i.code == load_word
    then interpret 0 rest (ptrace_x32 i.k)
    else if i.code == jump_eq
    then interpret (if a == i.k then i.jt else i.jf) rest a
    else if i.code == jump_ge
    then interpret (if leb i.k a then i.jt else i.jf) rest a
    else some i.k

interpret-drop :
    (skipped : ℕ) (program : List SockFilter) (a : ℕ)
    → interpret skipped program a ≡ interpret 0 (drop skipped program) a
unfolding interpret
interpret-drop zero program a = refl
interpret-drop (suc n) [] a = refl
interpret-drop (suc n) (_ ∷ rest) a = interpret-drop n rest a

pub interpret_loads :
    (jt jf k : ℕ) (rest : List SockFilter) (a : ℕ)
    → interpret 0 (record { code = load_word; jt = jt; jf = jf; k = k } ∷ rest) a
      ≡ interpret 0 rest (ptrace_x32 k)
unfolding interpret
interpret_loads jt jf k rest a = refl

pub interpret_jumps_eq :
    (jt jf k : ℕ) (rest : List SockFilter) (a : ℕ)
    → interpret 0 (record { code = jump_eq; jt = jt; jf = jf; k = k } ∷ rest) a
      ≡ interpret 0 (drop (if a == k then jt else jf) rest) a
unfolding interpret
interpret_jumps_eq jt jf k rest a = interpret-drop (if a == k then jt else jf) rest a

pub interpret_jumps_ge :
    (jt jf k : ℕ) (rest : List SockFilter) (a : ℕ)
    → interpret 0 (record { code = jump_ge; jt = jt; jf = jf; k = k } ∷ rest) a
      ≡ interpret 0 (drop (if leb k a then jt else jf) rest) a
unfolding interpret
interpret_jumps_ge jt jf k rest a = interpret-drop (if leb k a then jt else jf) rest a

pub interpret_returns :
    (jt jf k : ℕ) (rest : List SockFilter) (a : ℕ)
    → interpret 0 (record { code = return_k; jt = jt; jf = jf; k = k } ∷ rest) a ≡ some k
unfolding interpret
interpret_returns jt jf k rest a = refl

arch_gate_decides_example : interpret 0 arch_gate_program 0 ≡ some seccomp_ret_kill_process
arch_gate_decides_example =
    arch_gate_decides ptrace_x32 (interpret 0) interpret_loads interpret_jumps_eq interpret_jumps_ge
      interpret_returns 0
