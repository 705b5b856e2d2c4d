-- ===== src/Examples/Denylist.antt =====
-- The theorem on the two filters, at a machine, a compiler of denylists and one call.
use cargo_unikernel.Common.{
  ℕ, ◌≡◌, ◌↔◌, ◌<◌, refl, true, false, ◌==◌, if◌then◌else◌, List, [], ◌∷◌, Option, none, some, ok,
  map, retain, traverse, any, Bool-cases, inl, inr, ap, ◌∙◌,
}
use cargo_unikernel.Std.Text.{codes, split, split_once}
use cargo_unikernel.Std.Decimal.{parse_uint}
use cargo_unikernel.Guest.Baked.{baked, limit_mb_bytes, non_empty, validate_app_ids, parse_pair}
use cargo_unikernel.Guest.Seccomp.Denylist.{denied}
use cargo_unikernel.Guest.Seccomp.{
  load_word, jump_eq, return_k, audit_arch_x86_64, x32_syscall_bit, seccomp_ret_allow,
  seccomp_ret_kill_process,
}
use cargo_unikernel.Guest.Spawn.{Program, Confinement, SpawnFeatures, confinement}
use cargo_unikernel.Guest.Spawn.Fits.{confinement-Fits}
use cargo_unikernel.Guest.Spawn.Confined.{confined_process}
use cargo_unikernel.Guest.Spawn.Syscalls.{is_denied, documented, filters_decide, LetThrough}
use cargo_unikernel.Examples.Launch.{number, landlock_kernel, constants}
use cargo_unikernel.Examples.Sandbox.{
  ptrace_x32, interpret, interpret_loads, interpret_jumps_eq, interpret_jumps_ge, interpret_returns,
}

unfoldable checks : List ℕ → Program
checks [] = record { code = return_k; jt = 0; jf = 0; k = seccomp_ret_allow } ∷ []
checks (n ∷ ns) =
    record { code = jump_eq; jt = 0; jf = 1; k = n }
    ∷ record { code = return_k; jt = 0; jf = 0; k = seccomp_ret_kill_process }
    ∷ checks ns

checks_documented :
    (ns : List ℕ) (a : ℕ)
    → interpret 0 (checks ns) a
      ≡ some (if any (λ n. a == n) ns then seccomp_ret_kill_process else seccomp_ret_allow)
unfolding checks any interpret
checks_documented [] a = refl
checks_documented (n ∷ ns) a = elim (Bool-cases (a == n)) [
  | inl hit ↦ rw hit refl
  | inr other ↦ rw other (checks_documented ns a)
]

-- The architecture first, and then number by number.
unfoldable program_of : List ℕ → Program
unfolding checks
program_of ns =
    record { code = load_word; jt = 0; jf = 0; k = 4 }
    ∷ record { code = jump_eq; jt = 1; jf = 0; k = audit_arch_x86_64 }
    ∷ record { code = return_k; jt = 0; jf = 0; k = seccomp_ret_kill_process }
    ∷ record { code = load_word; jt = 0; jf = 0; k = 0 }
    ∷ checks ns

abbrev compile : List ℕ → Option Program
compile ns = some (program_of ns)

program_documented :
    (ns : List ℕ) (a : ℕ) → interpret 0 (program_of ns) a ≡ some (documented ptrace_x32 ns)
unfolding program_of interpret
program_documented ns a = checks_documented ns (ptrace_x32 0)

compiled :
    (ns : List ℕ) (program : Program) (a : ℕ)
    → compile ns ≡ some program
    → interpret 0 program a ≡ some (documented ptrace_x32 ns)
compiled ns program a h =
    let same : program ≡ program_of ns = cc in
    ap (λ p. interpret 0 p a) same ∙ program_documented ns a

-- Without Landlock.
abbrev open_features : SpawnFeatures
open_features = record {
  landlock = false;
  sev_snp = true;
  allow_write_execute = false;
  app_console = false;
}

abbrev child_of : Confinement
child_of = record {
  limits = record { nofile = 1024; nproc = 64; memlock_bytes = 67108864; address_space_bytes = 0 };
  uid = 65534;
  gid = 65534;
  rules = none;
  program = program_of (map number (denied false));
  env = (codes "MODE", codes "prod") ∷ [];
}

child_built : confinement number compile landlock_kernel open_features constants ≡ ok child_of
unfolding confinement baked parse_uint limit_mb_bytes retain split non_empty validate_app_ids
    traverse parse_pair split_once
child_built = refl

filters_decide_example :
    LetThrough ptrace_x32
      (interpret 0)
      interpret_loads
      interpret_jumps_eq
      interpret_jumps_ge
      interpret_returns
      number
      compile
      compiled
      (confined_process open_features constants child_of).filters
    ↔ ((ptrace_x32 4 ≡ audit_arch_x86_64)
        × (ptrace_x32 0 < x32_syscall_bit)
        × (is_denied number false (ptrace_x32 0) ≡ false))
filters_decide_example =
    filters_decide ptrace_x32 (interpret 0) interpret_loads interpret_jumps_eq interpret_jumps_ge
      interpret_returns number compile compiled landlock_kernel open_features constants child_of
      (confinement-Fits number compile landlock_kernel open_features constants child_of child_built)
