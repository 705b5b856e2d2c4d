-- ===== src/Guest/Boot/Confined.antt =====
-- What holds when the app runs (guest/src/main.rs, `main`).
use cargo_unikernel.Common.{
  ℕ, ◌≡◌, refl, false, List, [], ◌++◌, map, Option, none, some, ok, err, Bool-cases, inl, inr, ◌⊎◌,
}
use cargo_unikernel.Std.Text.{Text, codes}
use cargo_unikernel.Guest.Baked.{app_ids, parse_pairs}
use cargo_unikernel.Guest.Firewall.Rules.{Rule, parse_rules}
use cargo_unikernel.Guest.Firewall.Replies.{
  Installed, installed, build_failed, install_failed, install,
}
use cargo_unikernel.Guest.Mounts.{MountFatal, MountOp, prepare_system_env, lockdown_filesystem}
use cargo_unikernel.Guest.Mounts.Sealed.{Settled, lockdown-Settled}
use cargo_unikernel.Guest.Hardening.{attempts, apply}
use cargo_unikernel.Guest.Entropy.{EntropyWait, Seeded, wait_for_entropy, wait_for_entropy_iff}
use cargo_unikernel.Guest.Spawn.{Program, ChildOp}
use cargo_unikernel.Guest.Spawn.Confined.{AppConfined, spawn_app-Ends}
use cargo_unikernel.Guest.Trace.{Trace, demand, attempt, best_effort}
use cargo_unikernel.Guest.Trace.Laws.{Ends, good, ended, bind-Ends, attempt-Ends, demand-Ends}
use cargo_unikernel.Guest.Trace.Exact.{
  weaken-Ends, within-Ends, both-Ends, Gives, first-Gives, later-Gives, within-Gives,
}
use cargo_unikernel.Guest.Boot.{
  BootOp, lock_memory, mark_non_dumpable, filter_packets, mounting, arm_triggers, etc, set_sysctl,
  poll_random, configure_static_ipv6, wait_for_network, child, fatal, constant, BootFeatures,
  BootConstants, BootAnswers, outcome_of, same, install_filter, app_owned_dirs, entropy_of, begin,
  set_up, seed, make_ready, mounts_or_stop, spawn_features, boot, launch,
}
use cargo_unikernel.Guest.Boot.MountCalls.{
  mount_calls, Mounts, bind-Mounts, none_of, none_demanded, none_best, none_filter, none_chown,
  none_performed_run, none_exposed, none_compiled, none_binary, only_mounting,
}

module _ (f : BootFeatures) (k : BootConstants) (a : BootAnswers) where
  abbrev prepared : Trace MountOp MountFatal (Unit {0})
  prepared = prepare_system_env f.mount k.tmpfs a.mounts k.app_constants.payload_dir

  abbrev locked : Trace MountOp MountFatal (Unit {0})
  locked = lockdown_filesystem f.mount k.tmpfs a.mounts k.app_constants.payload_dir

  begin-Mounts : Mounts [] (begin f k a)
  unfolding begin
  begin-Mounts = bind-Mounts _ (none_best lock_memory refl) (λ _.
      bind-Mounts _ (none_demanded same _) (λ _.
        bind-Mounts _ (none_demanded _ (app_ids k.app_constants.app_uid k.app_constants.app_gid))
          (λ ids.
            bind-Mounts _ (none_best mark_non_dumpable refl)
              (λ _. bind-Mounts _ (none_filter f k a) (λ _. good [] ids refl)))))

  set_up-Mounts : (ids : ℕ × ℕ) → Mounts [] (set_up f k a ids)
  unfolding set_up
  set_up-Mounts ids = bind-Mounts _ (none_of arm_triggers _ a.armed refl) (λ _.
      bind-Mounts _ (none_chown a ids.0 ids.1 app_owned_dirs) (λ _.
        bind-Mounts _ (none_performed_run etc _ (λ op. refl)) (λ _.
          bind-Mounts _
            (none_demanded (λ e. fatal (constant e))
              (parse_pairs k.extra_sysctls (codes "[hardening].extra_sysctls")))
            (λ extra.
              none_performed_run set_sysctl (attempts (apply a.sysctls f.hardening extra))
                (λ op. refl)))))

  make_ready-Mounts : Mounts [] (make_ready f k a)
  unfolding make_ready
  make_ready-Mounts = bind-Mounts _ (none_exposed f.sev_snp a.device_there) (λ _.
      bind-Mounts _ (none_compiled f.net_ipv6 configure_static_ipv6 refl) (λ _.
        bind-Mounts _ (none_compiled f.mount.networking wait_for_network refl)
          (λ _. none_binary k a)))

  seed-Mounts : Mounts [] (seed a)
  unfolding seed
  seed-Mounts =
      none_of poll_random same (entropy_of (wait_for_entropy a.random_opened a.polls)) refl

  boot-Mounts : Mounts (prepared.0 ++ locked.0) (boot f k a)
  unfolding boot
  boot-Mounts = bind-Mounts _ begin-Mounts (λ ids.
      bind-Mounts _ (only_mounting mounts_or_stop prepared) (λ _.
        bind-Mounts _ (set_up-Mounts ids) (λ _.
          bind-Mounts _ seed-Mounts
            (λ _. bind-Mounts _ make_ready-Mounts (λ _. only_mounting mounts_or_stop locked)))))

  -- The packet filter is in place, if it is compiled in.
  abbrev pub Filtered : Type 0
  Filtered =
      (f.firewall ≡ false)
      ⊎ ((rules : List Rule) × (parse_rules k.firewall_rules ≡ ok rules)
          × (install f.net_ipv6 a.send rules ≡ some installed))

  outcome-installed :
      (o : Option Installed) (u : Unit {0}) → outcome_of o ≡ ok u → o ≡ some installed
  unfolding outcome_of
  outcome-installed none u h = absurd (cc)
  outcome-installed (some installed) u h = refl
  outcome-installed (some (build_failed e)) u h = absurd (cc)
  outcome-installed (some (install_failed e)) u h = absurd (cc)

  filter-Filtered : Gives Filtered (install_filter f k a)
  unfolding install_filter
  filter-Filtered = elim (Bool-cases f.firewall) [
    | inl on ↦ rw on (
        bind-Ends
          (λ rules. attempt filter_packets same (outcome_of (install f.net_ipv6 a.send rules)))
          (demand-Ends (λ e. fatal (constant e)) (parse_rules k.firewall_rules) (λ rules e. e))
          (λ _ rules e.
            attempt-Ends filter_packets same (outcome_of (install f.net_ipv6 a.send rules))
              (λ u h. inr (rules, e, outcome-installed _ u h))))
    | inr off ↦ rw off (good [] tt (inl refl))
  ]

  begin-Filtered : Gives Filtered (begin f k a)
  unfolding begin
  begin-Filtered = later-Gives (best_effort lock_memory) _ (λ _. later-Gives (demand same _) _ (λ _.
      later-Gives (demand _ (app_ids k.app_constants.app_uid k.app_constants.app_gid)) _ (λ ids.
        later-Gives (best_effort mark_non_dumpable) _ (λ _. first-Gives _ filter-Filtered))))

  entropy_of-ok : (o : EntropyWait) (u : Unit {0}) → entropy_of o ≡ ok u → o ≡ some (ok tt)
  unfolding entropy_of
  entropy_of-ok none u h = absurd (cc)
  entropy_of-ok (some (ok _)) u h = refl
  entropy_of-ok (some (err e)) u h = absurd (cc)

  seed-Seeded : Gives (Seeded a.polls) (seed a)
  unfolding seed
  seed-Seeded =
      attempt-Ends poll_random same (entropy_of (wait_for_entropy a.random_opened a.polls))
        (λ u e. ((wait_for_entropy_iff a.random_opened a.polls).0 (entropy_of-ok _ u e)).1)

  -- What a boot went through that comes to the app's spawn.
  abbrev pub Passed : Type 0
  Passed = Filtered × (prepared.1 ≡ ok tt) × Seeded a.polls × (locked.1 ≡ ok tt)

  boot-Passed : Gives Passed (boot f k a)
  unfolding boot
  boot-Passed = bind-Ends _ begin-Filtered (λ _ ids filtered.
      bind-Ends _ (within-Gives mounting mounts_or_stop prepared) (λ _ _ mounted.
        later-Gives (set_up f k a ids) _ (λ _. bind-Ends _ seed-Seeded (λ _ _ seeded.
          later-Gives (make_ready f k a) _ (λ _.
            weaken-Ends (λ _ _ sealed. (filtered, mounted, seeded, sealed))
              (within-Gives mounting mounts_or_stop locked))))))

module _ (number : Text → ℕ) (compile : List ℕ → Option Program) (f : BootFeatures)
    (k : BootConstants) (a : BootAnswers) where
  -- Of the calls of a launch: those of the boot, and then those of the child.
  abbrev pub LaunchConfined : List BootOp → Type 0
  LaunchConfined ops =
      (booted : List BootOp) × (calls : List ChildOp) × (ops ≡ booted ++ map child calls)
      × Settled f.mount.allow_write_execute (mount_calls booted)
      × AppConfined number compile a.landlock_calls (spawn_features f) k.app_constants calls
      × Filtered f k a
      × Seeded a.polls

  launch-Ends : Ends (λ ops _. LaunchConfined ops) (launch number compile f k a)
  unfolding launch
  launch-Ends = bind-Ends _ (both-Ends (boot-Mounts f k a) (boot-Passed f k a)) (λ booted _ h.
      let settled =
        lockdown-Settled f.mount a.mounts k.app_constants.payload_dir k.tmpfs h.1.1 h.1.3 in
      within-Ends child _ (
        weaken-Ends
          (λ calls pid confined. (booted, calls, refl, rw h.0 settled, confined, h.1.0, h.1.2))
          (spawn_app-Ends number compile a.landlock_calls a.child_calls (spawn_features f)
            k.app_constants)))

  -- If the boot comes to a running app, then of its calls the child's come last; the mounts before
  -- them leave every directory settled; the child is confined as its features and constants say;
  -- the packet filter, if it is compiled in, was installed; and the kernel has reported its
  -- entropy pool ready.
  pub launch_confines :
      (pid : ℕ)
      → (launch number compile f k a).1 ≡ ok pid
      → LaunchConfined (launch number compile f k a).0
  launch_confines pid h = ended pid h launch-Ends
