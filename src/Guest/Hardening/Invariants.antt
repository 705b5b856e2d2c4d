-- ===== src/Guest/Hardening/Invariants.antt =====
-- What every step of `apply` in guest/src/hardening.rs keeps, `apply` keeps.
use cargo_unikernel.Common.{
  ℕ, ◌≡◌, refl, Bool, true, false, not, List, [], ◌∷◌, any, All, Option, none, some, Result, ok,
  err, Bool-cases, inl, inr, arith,
}
use cargo_unikernel.Std.Text.{Text, codes, text_eq, starts_with, split, cons_head}
use cargo_unikernel.Guest.Hardening.{
  Knob, Sysctls, SysctlAnswers, HardeningFeatures, Listed, no_directory, unreadable, entries,
  Warning, no_entry, not_written, not_enumerated, refused, warn, untouched, write_sysctl, write_all,
  knobs_of, is_no_interface, apply_entry, apply_entries, apply_listed, conf_path,
  apply_existing_interface_protection, apply_network_spoofing_protection, apply_extra, category,
  apply_categories, apply, is_sysctl_path, baseline_tuning_knobs, redirects_and_forwarding_knobs,
  source_routing_knobs, arp_knobs, martians_knobs, icmp_knobs, tcp_knobs, info_leak_knobs,
  ptrace_and_bpf_knobs, kexec_and_fs_knobs, ipv4_interface_knobs, ipv6_interface_knobs,
}

-- The names that a directory has.
module _ (Named : Text → Type 0) where
  abbrev pub EntryNamed : Result ℕ (Option Text) → Type 0
  EntryNamed (ok (some name)) = Named name
  EntryNamed (ok none) = Unit
  EntryNamed (err errno) = Unit

  abbrev pub ListedNamed : Listed → Type 0
  ListedNamed (entries es) = All EntryNamed es
  ListedNamed no_directory = Unit
  ListedNamed (unreadable errno) = Unit

-- The warnings that are not about a write.
abbrev pub NoWrite : Warning → Type 0
NoWrite (not_written path value errno) = ⊥
NoWrite (not_enumerated path errno) = Unit
NoWrite (no_entry path errno) = Unit
NoWrite (refused path) = Unit

-- A table of paths below `/proc/sys`.
unfoldable pub is_confined : List Knob → Bool
is_confined knobs = not (any (λ k. not (is_sysctl_path k.0)) knobs)

-- An invariant that warnings keep, and writes of the sysctls that `P` holds of.
module _ (a : SysctlAnswers) (Inv : Sysctls → Type 0) (P : Knob → Type 0) (Named : Text → Type 0)
    (warned : (w : Warning) (s : Sysctls) → NoWrite w → Inv s → Inv (warn w s))
    (written : (k : Knob) (s : Sysctls) → P k → Inv s → Inv (write_sysctl a k s))
    (confined : (k : Knob) → is_sysctl_path k.0 ≡ true → P k) where
  write_all-Inv : (ks : List Knob) (s : Sysctls) → All P ks → Inv s → Inv (write_all a ks s)
  unfolding write_all
  write_all-Inv [] s h i = i
  write_all-Inv (k ∷ ks) s h i = write_all-Inv ks (write_sysctl a k s) h.1 (written k s h.0 i)

  table-All : (ks : List Knob) → is_confined ks ≡ true → All P ks
  unfolding is_confined any
  table-All [] h = tt
  table-All (k ∷ ks) h = (confined k (ground arith), table-All ks (ground arith))

  table-Inv :
      (ks : List Knob) (s : Sysctls) → is_confined ks ≡ true → Inv s → Inv (write_all a ks s)
  table-Inv ks s h i = write_all-Inv ks s (table-All ks h) i

  category-Inv :
      (on : Bool) (ks : List Knob) (s : Sysctls)
      → is_confined ks ≡ true
      → Inv s
      → Inv (category a on ks s)
  unfolding category
  category-Inv true ks s h i = table-Inv ks s h i
  category-Inv false ks s h i = i

  apply_extra-Inv : (ks : List Knob) (s : Sysctls) → Inv s → Inv (apply_extra a ks s)
  unfolding apply_extra
  apply_extra-Inv [] s i = i
  apply_extra-Inv ((path, value) ∷ ks) s i = elim (Bool-cases (is_sysctl_path path)) [
    | inl inside ↦
        rw inside (apply_extra-Inv ks _ (written (path, value) s (confined (path, value) inside) i))
    | inr outside ↦ rw outside (apply_extra-Inv ks _ (warned (refused path) s tt i))
  ]

  module _ (path : Text) (knobs : List Text)
      (ours : (name : Text) → Named name → All P (knobs_of path name knobs)) where
    apply_entry-Inv :
        (e : Result ℕ (Option Text)) (s : Sysctls)
        → EntryNamed Named e
        → Inv s
        → Inv (apply_entry a path knobs e s)
    unfolding apply_entry
    apply_entry-Inv (err errno) s n i = warned (no_entry path errno) s tt i
    apply_entry-Inv (ok none) s n i = i
    apply_entry-Inv (ok (some name)) s n i = elim (Bool-cases (is_no_interface name)) [
      | inl skipped ↦ rw skipped i
      | inr there ↦ rw there (write_all-Inv (knobs_of path name knobs) s (ours name n) i)
    ]

    apply_entries-Inv :
        (es : List (Result ℕ (Option Text))) (s : Sysctls)
        → All (EntryNamed Named) es
        → Inv s
        → Inv (apply_entries a path knobs es s)
    unfolding apply_entries
    apply_entries-Inv [] s n i = i
    apply_entries-Inv (e ∷ es) s n i =
        apply_entries-Inv es (apply_entry a path knobs e s) n.1 (apply_entry-Inv e s n.0 i)

    apply_listed-Inv :
        (l : Listed) (s : Sysctls)
        → ListedNamed Named l
        → Inv s
        → Inv (apply_listed a path knobs l s)
    unfolding apply_listed
    apply_listed-Inv no_directory s n i = i
    apply_listed-Inv (unreadable errno) s n i = warned (not_enumerated path errno) s tt i
    apply_listed-Inv (entries es) s n i = apply_entries-Inv es s n i

  module _
      (ipv4_ours : (name : Text)
        → Named name
        → All P (knobs_of (conf_path (codes "ipv4")) name ipv4_interface_knobs))
      (ipv6_ours : (name : Text)
        → Named name
        → All P (knobs_of (conf_path (codes "ipv6")) name ipv6_interface_knobs))
      (ipv4_named : ListedNamed Named (a.read_dir (conf_path (codes "ipv4"))))
      (ipv6_named : ListedNamed Named (a.read_dir (conf_path (codes "ipv6")))) where
    spoofing-Inv : (s : Sysctls) → Inv s → Inv (apply_network_spoofing_protection a s)
    unfolding apply_network_spoofing_protection apply_existing_interface_protection
        redirects_and_forwarding_knobs source_routing_knobs arp_knobs martians_knobs is_confined any
        is_sysctl_path starts_with split cons_head text_eq
    spoofing-Inv s i = table-Inv martians_knobs _ refl (
        apply_listed-Inv (conf_path (codes "ipv6")) ipv6_interface_knobs ipv6_ours
          (a.read_dir (conf_path (codes "ipv6"))) _ ipv6_named
          (apply_listed-Inv (conf_path (codes "ipv4")) ipv4_interface_knobs ipv4_ours
            (a.read_dir (conf_path (codes "ipv4"))) _ ipv4_named
            (table-Inv arp_knobs _ refl (
              table-Inv source_routing_knobs _ refl
                (table-Inv redirects_and_forwarding_knobs s refl i)))))

    tuned-Inv : (s : Sysctls) → Inv s → Inv (write_all a baseline_tuning_knobs s)
    unfolding baseline_tuning_knobs is_confined any is_sysctl_path starts_with split cons_head
        text_eq
    tuned-Inv s i = table-Inv baseline_tuning_knobs s refl i

    apply_categories-Inv :
        (f : HardeningFeatures) (s : Sysctls) → Inv s → Inv (apply_categories a f s)
    unfolding apply_categories baseline_tuning_knobs icmp_knobs tcp_knobs info_leak_knobs
        ptrace_and_bpf_knobs kexec_and_fs_knobs is_confined any is_sysctl_path starts_with split
        cons_head text_eq
    apply_categories-Inv f s i = category-Inv f.kexec_fs kexec_and_fs_knobs _ refl (
        category-Inv f.ptrace_bpf ptrace_and_bpf_knobs _ refl (
          category-Inv f.info_leak info_leak_knobs _ refl (
            category-Inv f.tcp tcp_knobs _ refl (
              category-Inv f.icmp icmp_knobs _ refl (elim (Bool-cases f.net_spoofing) [
                | inl on ↦ rw on (spoofing-Inv _ (tuned-Inv s i))
                | inr off ↦ rw off (tuned-Inv s i)
              ])))))

    pub apply-Inv :
        (f : HardeningFeatures) (extra : List Knob) → Inv untouched → Inv (apply a f extra)
    unfolding apply
    apply-Inv f extra i = apply_extra-Inv extra _ (apply_categories-Inv f untouched i)
