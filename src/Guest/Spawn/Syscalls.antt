-- ===== src/Guest/Spawn/Syscalls.antt =====
-- Which system calls the app may make behind the two filters of guest/src/seccomp.rs.
use cargo_unikernel.Common.{
  ℕ, ◌≡◌, ◌↔◌, ◌<◌, ◌∙◌, refl, sym, Bool, true, false, ◌&&◌, not, ltb, leb, ◌==◌, if◌then◌else◌,
  List, ◌∷◌, drop, any, map, Option, some, All, arith,
}
use cargo_unikernel.Std.Text.{Text}
use cargo_unikernel.Guest.Landlock
use cargo_unikernel.Guest.Seccomp.{
  SockFilter, load_word, jump_eq, jump_ge, return_k, audit_arch_x86_64, x32_syscall_bit,
  seccomp_ret_allow, seccomp_ret_kill_process,
}
use cargo_unikernel.Guest.Seccomp.Gate.{arch_gate_decides}
use cargo_unikernel.Guest.Seccomp.Denylist.{denied}
use cargo_unikernel.Guest.Spawn.{Program, Confinement, SpawnFeatures, SpawnConstants}
use cargo_unikernel.Guest.Spawn.Fits.{Fits}
use cargo_unikernel.Guest.Spawn.Confined.{confined_process}

-- A call's number is among those of the names.
abbrev pub is_denied : (Text → ℕ) → Bool → ℕ → Bool
is_denied number allow_write_execute nr =
    any (λ n. nr == n) (map number (denied allow_write_execute))

-- What `seccompiler` documents of a filter that allows all calls but the given ones: those kill the
-- process, and so does another architecture.
abbrev pub documented : (ℕ → ℕ) → List ℕ → ℕ
documented field numbers =
    if not (field 4 == audit_arch_x86_64)
    then seccomp_ret_kill_process
    else if any (λ n. field 0 == n) numbers
    then seccomp_ret_kill_process
    else seccomp_ret_allow

decides :
    (b : Bool)
    → some (if b then seccomp_ret_allow else seccomp_ret_kill_process) ≡ some seccomp_ret_allow
    → b ≡ true
decides true h = refl
decides false h = absurd (ground arith)

list_decides :
    (right hit : Bool)
    → some (
        if not right
        then seccomp_ret_kill_process
        else if hit
        then seccomp_ret_kill_process
        else seccomp_ret_allow)
      ≡ some seccomp_ret_allow
    → hit ≡ false
list_decides true false h = refl
list_decides true true h = absurd (ground arith)
list_decides false hit h = absurd (ground arith)

allowed :
    (b : Bool)
    → b ≡ true
    → some (if b then seccomp_ret_allow else seccomp_ret_kill_process) ≡ some seccomp_ret_allow
allowed b h = rw h refl

list_allowed :
    (right hit : Bool)
    → right ≡ true
    → hit ≡ false
    → some (
        if not right
        then seccomp_ret_kill_process
        else if hit
        then seccomp_ret_kill_process
        else seccomp_ret_allow)
      ≡ some seccomp_ret_allow
list_allowed right hit r h = rw (r, h) refl

-- As for the gate, `run program a` is what the kernel's machine returns for one call with the data
-- `field`. The kernel runs every filter of a process, and lets the call through if all allow it.
module _ (field : ℕ → ℕ) (run : List SockFilter → ℕ → Option ℕ)
    (loads : (jt jf k : ℕ) (rest : List SockFilter) (a : ℕ)
      → run (record { code = load_word; jt = jt; jf = jf; k = k } ∷ rest) a ≡ run rest (field k))
    (jumps_eq : (jt jf k : ℕ) (rest : List SockFilter) (a : ℕ)
      → run (record { code = jump_eq; jt = jt; jf = jf; k = k } ∷ rest) a
        ≡ run (drop (if a == k then jt else jf) rest) a)
    (jumps_ge : (jt jf k : ℕ) (rest : List SockFilter) (a : ℕ)
      → run (record { code = jump_ge; jt = jt; jf = jf; k = k } ∷ rest) a
        ≡ run (drop (if leb k a then jt else jf) rest) a)
    (returns : (jt jf k : ℕ) (rest : List SockFilter) (a : ℕ)
      → run (record { code = return_k; jt = jt; jf = jf; k = k } ∷ rest) a ≡ some k)
    (number : Text → ℕ) (compile : List ℕ → Option Program)
    (compiled : (numbers : List ℕ) (program : Program) (a : ℕ)
      → compile numbers ≡ some program
      → run program a ≡ some (documented field numbers)) where
  abbrev pub LetThrough : List Program → Type 0
  LetThrough filters = All (λ program. run program 0 ≡ some seccomp_ret_allow) filters

  -- On a machine that loads, jumps and returns as classic BPF does, and with a denylist compiled as
  -- `seccompiler` documents it, the filters of the process that `spawn_app` makes let a call through
  -- if, and only if, it is of the x86_64 architecture, its number is below the x32 bit, and it is
  -- none of the denied ones.
  pub filters_decide :
      (calls : Landlock.Calls) (f : SpawnFeatures) (k : SpawnConstants) (c : Confinement)
      → Fits number compile calls f k c
      → LetThrough (confined_process f k c).filters ↔ (
          (field 4 ≡ audit_arch_x86_64)
          × (field 0 < x32_syscall_bit)
          × (is_denied number f.allow_write_execute (field 0) ≡ false))
  filters_decide calls f k c fits =
      let gate = arch_gate_decides field run loads jumps_eq jumps_ge returns 0 in
      let list = compiled (map number (denied f.allow_write_execute)) c.program 0 fits.denylist in
      let right = field 4 == audit_arch_x86_64 in
      let hit = is_denied number f.allow_write_execute (field 0) in
      (
        λ h.
            let inside : (right && ltb (field 0) x32_syscall_bit) ≡ true =
              decides _ (sym gate ∙ h.0) in
            let free : hit ≡ false = list_decides right hit (sym list ∙ h.1.0) in
            (ground arith, ground arith, free),
        λ h.
            let inside : (right && ltb (field 0) x32_syscall_bit) ≡ true =
              ground (arith, h.0, h.1) in
            let native : right ≡ true = ground (arith, h.0) in
            (
              gate ∙ allowed (right && ltb (field 0) x32_syscall_bit) inside,
              (list ∙ list_allowed right hit native h.2, tt),
            ),
      )
