-- ===== src/Guest/Seccomp.antt =====
-- guest/src/seccomp.rs: the program of the architecture gate.
pub mod Gate
pub mod Denylist
use cargo_unikernel.Common.{ℕ, List, [], ◌∷◌, bit_or}

-- `struct sock_filter`.
pub record SockFilter : Type 0 where
  pub code : ℕ
  pub jt : ℕ
  pub jf : ℕ
  pub k : ℕ

abbrev pub bpf_ld : ℕ
bpf_ld = 0x00

abbrev pub bpf_w : ℕ
bpf_w = 0x00

abbrev pub bpf_abs : ℕ
bpf_abs = 0x20

abbrev pub bpf_jmp : ℕ
bpf_jmp = 0x05

abbrev pub bpf_jeq : ℕ
bpf_jeq = 0x10

abbrev pub bpf_jge : ℕ
bpf_jge = 0x30

abbrev pub bpf_k : ℕ
bpf_k = 0x00

abbrev pub bpf_ret : ℕ
bpf_ret = 0x06

abbrev pub seccomp_data_nr_offset : ℕ
seccomp_data_nr_offset = 0

abbrev pub seccomp_data_arch_offset : ℕ
seccomp_data_arch_offset = 4

abbrev pub audit_arch_x86_64 : ℕ
audit_arch_x86_64 = 0xC000003E

abbrev pub x32_syscall_bit : ℕ
x32_syscall_bit = 0x40000000

abbrev pub seccomp_ret_allow : ℕ
seccomp_ret_allow = 0x7fff0000

abbrev pub seccomp_ret_kill_process : ℕ
seccomp_ret_kill_process = 0x80000000

abbrev pub load_word : ℕ
load_word = bit_or (bit_or bpf_ld bpf_w) bpf_abs

abbrev pub jump_eq : ℕ
jump_eq = bit_or (bit_or bpf_jmp bpf_jeq) bpf_k

abbrev pub jump_ge : ℕ
jump_ge = bit_or (bit_or bpf_jmp bpf_jge) bpf_k

abbrev pub return_k : ℕ
return_k = bit_or bpf_ret bpf_k

unfoldable pub arch_gate_program : List SockFilter
arch_gate_program =
    record { code = load_word; jt = 0; jf = 0; k = seccomp_data_arch_offset }
    ∷ record { code = jump_eq; jt = 0; jf = 3; k = audit_arch_x86_64 }
    ∷ record { code = load_word; jt = 0; jf = 0; k = seccomp_data_nr_offset }
    ∷ record { code = jump_ge; jt = 1; jf = 0; k = x32_syscall_bit }
    ∷ record { code = return_k; jt = 0; jf = 0; k = seccomp_ret_allow }
    ∷ record { code = return_k; jt = 0; jf = 0; k = seccomp_ret_kill_process }
    ∷ []
