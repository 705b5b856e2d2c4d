-- ===== src/Guest/Spawn/Made.antt =====
-- The calls that a child of `spawn_app` (guest/src/main.rs) has made when it runs the app's binary.
use cargo_unikernel.Common.{
  ℕ, zero, suc, ltb, refl, Bool, true, false, List, [], ◌∷◌, ◌++◌, Option, none, some,
  if◌then◌else◌, Result, Bool-cases, inl, inr,
}
use cargo_unikernel.Guest.Baked.{ResourceLimits}
use cargo_unikernel.Guest.Landlock.{Ruleset}
use cargo_unikernel.Guest.Seccomp.{arch_gate_program}
use cargo_unikernel.Guest.Trace.Laws.{good}
use cargo_unikernel.Guest.Trace.Exact.{Makes, attempt-Makes, bind-Makes}
use cargo_unikernel.Guest.Spawn.{
  Program, Resource, ChildOp, fork, set_rlimit, drop_bounding, clear_groups, set_gid, set_uid,
  refuse_exec_gain, no_new_privs, restrict_self, add_filter, execve, ChildAnswers, child_call,
  ignoring_einval, set_address_space, apply_resource_limits, drop_capabilities, drop_privileges,
  set_mdwe, restrict, install_arch_gate, install_baseline_denylist, pre_exec, spawn_child,
  Confinement, SpawnFeatures, SpawnConstants,
}

-- The calls of each closure.
abbrev pub limit_ops : ResourceLimits → List ChildOp
limit_ops l =
    set_rlimit Resource.open_files l.nofile
    ∷ set_rlimit Resource.processes l.nproc
    ∷ set_rlimit Resource.locked_memory l.memlock_bytes
    ∷ (if ltb 0 l.address_space_bytes
        then set_rlimit Resource.address_space l.address_space_bytes ∷ []
        else [])

abbrev pub capability_ops : ℕ → ℕ → List ChildOp
capability_ops zero cap = []
capability_ops (suc count) cap = drop_bounding cap ∷ capability_ops count (suc cap)

abbrev pub mdwe_ops : Bool → List ChildOp
mdwe_ops false = refuse_exec_gain ∷ []
mdwe_ops true = []

abbrev pub domain_ops : Option Ruleset → List ChildOp
domain_ops none = []
domain_ops (some rules) = no_new_privs ∷ restrict_self rules ∷ []

abbrev child_ops : Bool → Confinement → List ChildOp
child_ops allow c =
    limit_ops c.limits
    ++ ((capability_ops 64 0 ++ clear_groups ∷ set_gid c.gid ∷ set_uid c.uid ∷ [])
        ++ (mdwe_ops allow
            ++ (domain_ops c.rules
                ++ no_new_privs ∷ add_filter arch_gate_program ∷ add_filter c.program ∷ [])))

abbrev pub spawn_ops : SpawnFeatures → SpawnConstants → Confinement → List ChildOp
spawn_ops f k c =
    (fork ∷ [])
    ++ (child_ops f.allow_write_execute c ++ ((execve k.app_path c.env f.app_console ∷ []) ++ []))

module _ (a : ChildAnswers) where
  call-Makes : (op : ChildOp) (r : Result ℕ (Unit {0})) → Makes (op ∷ []) (child_call op r)
  call-Makes op r = attempt-Makes op _ r

  limits-Makes : (l : ResourceLimits) → Makes (limit_ops l) (apply_resource_limits a l)
  unfolding apply_resource_limits set_address_space
  limits-Makes l = bind-Makes _ (call-Makes _ _) (λ _. bind-Makes _ (call-Makes _ _) (λ _.
      bind-Makes _ (call-Makes _ _) (λ _. elim (Bool-cases (ltb 0 l.address_space_bytes)) [
        | inl capped ↦ rw capped (call-Makes _ _)
        | inr free ↦ rw free (good [] tt refl)
      ])))

  capabilities-Makes :
      (count cap : ℕ) → Makes (capability_ops count cap) (drop_capabilities a count cap)
  unfolding drop_capabilities
  capabilities-Makes zero cap = good [] tt refl
  capabilities-Makes (suc count) cap =
      bind-Makes _ (call-Makes _ (ignoring_einval (a.bounding cap)))
        (λ _. capabilities-Makes count (suc cap))

  mdwe-Makes : (allow : Bool) → Makes (mdwe_ops allow) (set_mdwe a allow)
  unfolding set_mdwe
  mdwe-Makes false = call-Makes _ _
  mdwe-Makes true = good [] tt refl

  domain-Makes : (rules : Option Ruleset) → Makes (domain_ops rules) (restrict a rules)
  unfolding restrict
  domain-Makes none = good [] tt refl
  domain-Makes (some rules) = bind-Makes _ (call-Makes _ _) (λ _. call-Makes _ _)

  privileges-Makes :
      (uid gid : ℕ)
      → Makes
          (capability_ops 64 0 ++ clear_groups ∷ set_gid gid ∷ set_uid uid ∷ [])
          (drop_privileges a uid gid)
  unfolding drop_privileges
  privileges-Makes uid gid = bind-Makes _ (capabilities-Makes 64 0) (λ _.
      bind-Makes {Y = set_gid gid ∷ set_uid uid ∷ []} _ (call-Makes clear_groups a.groups)
        (λ _. bind-Makes _ (call-Makes (set_gid gid) a.gid) (λ _. call-Makes (set_uid uid) a.uid)))

  filters-Makes :
      (program : Program)
      → Makes
          (no_new_privs ∷ add_filter arch_gate_program ∷ add_filter program ∷ [])
          (install_baseline_denylist a program)
  unfolding install_baseline_denylist install_arch_gate
  filters-Makes program =
      bind-Makes _
        (bind-Makes _ (call-Makes no_new_privs a.gate_new_privs)
          (λ _. call-Makes (add_filter arch_gate_program) a.gate))
        (λ _. call-Makes (add_filter program) a.denylist)

  pre_exec-Makes : (allow : Bool) (c : Confinement) → Makes (child_ops allow c) (pre_exec a allow c)
  unfolding pre_exec
  pre_exec-Makes allow c = bind-Makes _ (limits-Makes c.limits) (λ _.
      bind-Makes _ (privileges-Makes c.uid c.gid) (λ _.
        bind-Makes _ (mdwe-Makes allow)
          (λ _. bind-Makes _ (domain-Makes c.rules) (λ _. filters-Makes c.program))))

  pub spawn-Makes :
      (f : SpawnFeatures) (k : SpawnConstants) (c : Confinement)
      → Makes (spawn_ops f k c) (spawn_child a f k c)
  unfolding spawn_child
  spawn-Makes f k c = bind-Makes _ (attempt-Makes fork _ a.forked) (λ pid.
      bind-Makes _ (pre_exec-Makes f.allow_write_execute c) (λ _.
        bind-Makes _ (call-Makes (execve k.app_path c.env f.app_console) a.executed)
          (λ _. good [] pid refl)))
