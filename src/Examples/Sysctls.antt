-- ===== src/Examples/Sysctls.antt =====
-- The theorems on the sysctls and on the wait for entropy, at concrete answers.
use cargo_unikernel.Common.{
  ℕ, ◌≡◌, ◌↔◌, refl, true, List, [], ◌∷◌, some, Result, ok, err, All, if◌then◌else◌,
}
use cargo_unikernel.Std.Text.{Text, codes, contains, text_eq}
use cargo_unikernel.Guest.Hardening.{
  HardeningFeatures, SysctlAnswers, done, no_directory, Listed, entries, apply,
}
use cargo_unikernel.Guest.Hardening.Tally.{Tallied, apply-Tallied}
use cargo_unikernel.Guest.Hardening.Confined.{BelowSys, apply-Confined}
use cargo_unikernel.Guest.Entropy.{
  PollRound, timed_out, events, Seeded, wait_for_entropy, wait_for_entropy_iff,
}

-- Two interfaces, and no IPv6.
abbrev interfaces : Text → Listed
interfaces path =
    if text_eq path (codes "/proc/sys/net/ipv4/conf")
    then entries
        (ok (some (codes "all")) ∷ ok (some (codes "eth0")) ∷ err 5 ∷ ok (some (codes "lo")) ∷ [])
    else no_directory

abbrev pub sysctl_files : SysctlAnswers
sysctl_files = record { write = λ ws k. done; read_dir = interfaces }

abbrev pub all_hardening : HardeningFeatures
all_hardening = record {
  net_spoofing = true;
  icmp = true;
  tcp = true;
  info_leak = true;
  ptrace_bpf = true;
  kexec_fs = true;
}

apply-Tallied_example :
    Tallied (apply sysctl_files all_hardening ((codes "/etc/passwd", codes "0") ∷ []))
apply-Tallied_example =
    apply-Tallied sysctl_files all_hardening ((codes "/etc/passwd", codes "0") ∷ [])

apply-Confined_example :
    All BelowSys (apply sysctl_files all_hardening ((codes "/etc/passwd", codes "0") ∷ [])).writes
unfolding text_eq contains
apply-Confined_example =
    apply-Confined sysctl_files all_hardening ((codes "/etc/passwd", codes "0") ∷ [])
      ((refl, refl), ((refl, refl), (tt, ((refl, refl), tt)))) tt

-- Ready in the second round.
abbrev pub polls : List PollRound
polls =
    record { before_deadline = true; polled = timed_out }
    ∷ record { before_deadline = true; polled = events true }
    ∷ []

wait_for_entropy_iff_example :
    (wait_for_entropy (ok tt) polls ≡ some (ok tt))
    ↔ (Path (Result ℕ (Unit {0})) (ok tt) (ok tt) × Seeded polls)
wait_for_entropy_iff_example = wait_for_entropy_iff (ok tt) polls
