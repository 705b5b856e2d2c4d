-- ===== src/Guest/Hardening.antt =====
-- guest/src/hardening.rs: the sysctls that `apply` writes, with the two counters. What a write
-- answers and what a directory holds is the input.
mod Knobs
unfoldable pub use Knobs.*
pub mod Invariants
pub mod Tally
pub mod Confined
use cargo_unikernel.Common.{
  map, ℕ, suc, ◌+◌, ◌%◌, ◌^◌, Bool, true, false, ◌&&◌, ◌||◌, not, List, [], ◌∷◌, ◌++◌, any, Option,
  none, some, if◌then◌else◌, Result, ok, err,
}
use cargo_unikernel.Std.Text.{Text, codes, text_eq, starts_with, split}

-- What `std::fs::write` comes to; `no_such_file` is the error of kind `NotFound`.
pub data Written : Type 0 where
  done : Written
  no_such_file : Written
  write_error : ℕ → Written

-- The messages that the caller logs.
pub data Warning : Type 0 where
  not_written : Text → Text → ℕ → Warning
  not_enumerated : Text → ℕ → Warning
  no_entry : Text → ℕ → Warning
  refused : Text → Warning

-- APPLIED and ABSENT, with the writes so far, their results and the warnings.
pub record Sysctls : Type 0 where
  pub applied : ℕ
  pub absent : ℕ
  pub writes : List (Knob × Written)
  pub warnings : List Warning

abbrev pub untouched : Sysctls
untouched = record { applied = 0; absent = 0; writes = []; warnings = [] }

-- A directory's entries: each is a name, which is no name for `to_str` if it is not UTF-8, or an error.
pub data Listed : Type 0 where
  no_directory : Listed
  unreadable : ℕ → Listed
  entries : List (Result ℕ (Option Text)) → Listed

-- What a write answers, after the writes before it.
pub record SysctlAnswers : Type 0 where
  pub write : List (Knob × Written) → Knob → Written
  pub read_dir : Text → Listed

unfoldable pub bump : ℕ → ℕ
bump counter = suc counter % 2 ^ 32

unfoldable pub warn : Warning → Sysctls → Sysctls
warn w s = record {
  applied = s.applied;
  absent = s.absent;
  writes = s.writes;
  warnings = s.warnings ++ w ∷ [];
}

unfoldable pub note_written : Knob → Written → Sysctls → Sysctls
unfolding bump
note_written k done s = record {
  applied = bump s.applied;
  absent = s.absent;
  writes = s.writes ++ (k, done) ∷ [];
  warnings = s.warnings;
}
note_written k no_such_file s = record {
  applied = s.applied;
  absent = bump s.absent;
  writes = s.writes ++ (k, no_such_file) ∷ [];
  warnings = s.warnings;
}
note_written k (write_error errno) s = record {
  applied = s.applied;
  absent = s.absent;
  writes = s.writes ++ (k, write_error errno) ∷ [];
  warnings = s.warnings ++ not_written k.0 k.1 errno ∷ [];
}

module _ (a : SysctlAnswers) where
  unfoldable pub write_sysctl : Knob → Sysctls → Sysctls
  unfolding note_written
  write_sysctl k s = note_written k (a.write s.writes k) s

  unfoldable pub write_all : List Knob → Sysctls → Sysctls
  unfolding write_sysctl
  write_all [] s = s
  write_all (k ∷ ks) s = write_all ks (write_sysctl k s)

-- The sysctls of one interface of a directory.
unfoldable pub knobs_of : Text → Text → List Text → List Knob
knobs_of path name [] = []
knobs_of path name (knob ∷ knobs) =
    (path ++ b'/' ∷ (name ++ b'/' ∷ knob), codes "0") ∷ knobs_of path name knobs

unfoldable pub is_no_interface : Text → Bool
is_no_interface name = text_eq name (codes "all") || text_eq name (codes "default")

module _ (a : SysctlAnswers) (path : Text) (knobs : List Text) where
  unfoldable pub apply_entry : Result ℕ (Option Text) → Sysctls → Sysctls
  unfolding warn is_no_interface write_all knobs_of
  apply_entry (err errno) s = warn (no_entry path errno) s
  apply_entry (ok none) s = s
  apply_entry (ok (some name)) s =
      if is_no_interface name then s else write_all a (knobs_of path name knobs) s

  unfoldable pub apply_entries : List (Result ℕ (Option Text)) → Sysctls → Sysctls
  unfolding apply_entry
  apply_entries [] s = s
  apply_entries (e ∷ es) s = apply_entries es (apply_entry e s)

  unfoldable pub apply_listed : Listed → Sysctls → Sysctls
  unfolding warn apply_entries
  apply_listed no_directory s = s
  apply_listed (unreadable errno) s = warn (not_enumerated path errno) s
  apply_listed (entries es) s = apply_entries es s

abbrev pub conf_path : Text → Text
conf_path family = codes "/proc/sys/net/" ++ (family ++ codes "/conf")

unfoldable pub is_sysctl_path : Text → Bool
is_sysctl_path path =
    starts_with (codes "/proc/sys/") path
    && not (any (λ part. text_eq part (codes "..")) (split b'/' path))

-- Which categories are compiled in.
pub record HardeningFeatures : Type 0 where
  pub net_spoofing : Bool
  pub icmp : Bool
  pub tcp : Bool
  pub info_leak : Bool
  pub ptrace_bpf : Bool
  pub kexec_fs : Bool

pub record Summary : Type 0 where
  pub applied : ℕ
  pub absent : ℕ

module _ (a : SysctlAnswers) where
  unfoldable pub apply_existing_interface_protection : Sysctls → Sysctls
  unfolding apply_listed ipv4_interface_knobs ipv6_interface_knobs
  apply_existing_interface_protection s =
      let ipv4 = conf_path (codes "ipv4") in
      let ipv6 = conf_path (codes "ipv6") in
      apply_listed a ipv6 ipv6_interface_knobs (a.read_dir ipv6)
        (apply_listed a ipv4 ipv4_interface_knobs (a.read_dir ipv4) s)

  unfoldable pub apply_network_spoofing_protection : Sysctls → Sysctls
  unfolding write_all redirects_and_forwarding_knobs source_routing_knobs arp_knobs martians_knobs
      apply_existing_interface_protection
  apply_network_spoofing_protection s = write_all a martians_knobs (
      apply_existing_interface_protection (
        write_all a arp_knobs
          (write_all a source_routing_knobs (write_all a redirects_and_forwarding_knobs s))))

  unfoldable pub apply_extra : List Knob → Sysctls → Sysctls
  unfolding is_sysctl_path warn write_sysctl
  apply_extra [] s = s
  apply_extra ((path, value) ∷ extra) s =
      apply_extra extra
        (if is_sysctl_path path then write_sysctl a (path, value) s else warn (refused path) s)

  -- A category, if it is compiled in.
  unfoldable pub category : Bool → List Knob → Sysctls → Sysctls
  unfolding write_all
  category on knobs s = if on then write_all a knobs s else s

  unfoldable pub apply_categories : HardeningFeatures → Sysctls → Sysctls
  unfolding write_all category apply_network_spoofing_protection baseline_tuning_knobs icmp_knobs
      tcp_knobs info_leak_knobs ptrace_and_bpf_knobs kexec_and_fs_knobs
  apply_categories f s =
      let tuned = write_all a baseline_tuning_knobs s in
      let spoofing = if f.net_spoofing then apply_network_spoofing_protection tuned else tuned in
      category f.kexec_fs kexec_and_fs_knobs (
        category f.ptrace_bpf ptrace_and_bpf_knobs (
          category f.info_leak info_leak_knobs
            (category f.tcp tcp_knobs (category f.icmp icmp_knobs spoofing))))

  -- `apply`; the counters start at 0.
  unfoldable pub apply : HardeningFeatures → List Knob → Sysctls
  unfolding apply_categories apply_extra
  apply f extra = apply_extra extra (apply_categories f untouched)

unfoldable pub summary : Sysctls → Summary
summary s = record { applied = s.applied; absent = s.absent }

-- The knobs that were written, whatever came of it.
abbrev pub attempts : Sysctls → List Knob
attempts s = map (λ w. w.0) s.writes
