-- ===== src/Guest/Seccomp/Gate.antt =====
-- What the architecture gate of guest/src/seccomp.rs decides, on the kernel's classic BPF machine.
use cargo_unikernel.Common.{
  ℕ, ◌≡◌, refl, true, false, ◌&&◌, ltb, leb, ◌==◌, if◌then◌else◌, List, ◌∷◌, drop, Option, some,
  Bool-cases, inl, inr, arith,
}
use cargo_unikernel.Guest.Seccomp.{
  SockFilter, load_word, jump_eq, jump_ge, return_k, audit_arch_x86_64, x32_syscall_bit,
  seccomp_ret_allow, seccomp_ret_kill_process, arch_gate_program,
}

-- `run program a` is what the kernel returns for one system call from the head of `program` on,
-- with `a` in the accumulator: `field n` is the word at the offset n of its `seccomp_data`.
module _ (field : ℕ → ℕ) (run : List SockFilter → ℕ → Option ℕ)
    (loads : (jt jf k : ℕ) (rest : List SockFilter) (a : ℕ)
      → run (record { code = load_word; jt = jt; jf = jf; k = k } ∷ rest) a ≡ run rest (field k))
    (jumps_eq : (jt jf k : ℕ) (rest : List SockFilter) (a : ℕ)
      → run (record { code = jump_eq; jt = jt; jf = jf; k = k } ∷ rest) a
        ≡ run (drop (if a == k then jt else jf) rest) a)
    (jumps_ge : (jt jf k : ℕ) (rest : List SockFilter) (a : ℕ)
      → run (record { code = jump_ge; jt = jt; jf = jf; k = k } ∷ rest) a
        ≡ run (drop (if leb k a then jt else jf) rest) a)
    (returns : (jt jf k : ℕ) (rest : List SockFilter) (a : ℕ)
      → run (record { code = return_k; jt = jt; jf = jf; k = k } ∷ rest) a ≡ some k) where
  -- On a machine that loads, jumps and returns as classic BPF does, the gate allows a system call
  -- if its architecture (the word at 4) is x86_64 and its number (the word at 0) is below the x32
  -- bit, and kills the process otherwise.
  pub arch_gate_decides :
      (a : ℕ)
      → run arch_gate_program a
        ≡ some (
            if (field 4 == audit_arch_x86_64) && ltb (field 0) x32_syscall_bit
            then seccomp_ret_allow
            else seccomp_ret_kill_process)
  unfolding arch_gate_program
  arch_gate_decides a = elim (Bool-cases (field 4 == audit_arch_x86_64)) [
    | inr other ↦ rw (loads, jumps_eq, other, returns) refl
    | inl x86_64 ↦ elim (Bool-cases (leb x32_syscall_bit (field 0))) [
      | inl x32 ↦
          let not_below : ltb (field 0) x32_syscall_bit ≡ false = ground arith in
          rw (loads, jumps_eq, x86_64, loads, jumps_ge, x32, not_below, returns) refl
      | inr below ↦
          let is_below : ltb (field 0) x32_syscall_bit ≡ true = ground arith in
          rw (loads, jumps_eq, x86_64, loads, jumps_ge, below, is_below, returns) refl
    ]
  ]
