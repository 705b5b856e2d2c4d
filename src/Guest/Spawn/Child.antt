-- ===== src/Guest/Spawn/Child.antt =====
-- The closures that `spawn_app` of guest/src/main.rs runs in the forked child before the app's
-- binary, with `restrict_self` of guest/src/landlock.rs and `install_baseline_denylist` of
-- guest/src/seccomp.rs. What the system calls answer is the input.
use cargo_unikernel.Common.{
  ℕ, zero, suc, ◌==◌, ltb, Bool, true, false, List, Option, none, some, if◌then◌else◌, Result, ok,
  err,
}
use cargo_unikernel.Std.Text.{Text}
use cargo_unikernel.Guest.Baked.{ResourceLimits}
use cargo_unikernel.Guest.Landlock.{Ruleset}
use cargo_unikernel.Guest.Seccomp.{arch_gate_program}
use cargo_unikernel.Guest.Spawn.Parent.{Program, Confinement, SpawnConstants, SpawnFeatures}
use cargo_unikernel.Guest.Trace.{Trace, ◌>>=◌, ◌>>◌, pure, attempt}

pub data Resource : Type 0 where
  open_files processes locked_memory address_space : Resource

pub data ChildOp : Type 0 where
  fork : ChildOp
  set_rlimit : Resource → ℕ → ChildOp
  drop_bounding : ℕ → ChildOp
  clear_groups : ChildOp
  set_gid : ℕ → ChildOp
  set_uid : ℕ → ChildOp
  refuse_exec_gain : ChildOp
  no_new_privs : ChildOp
  restrict_self : Ruleset → ChildOp
  add_filter : Program → ChildOp
  execve : Text → List (Text × Text) → Bool → ChildOp

-- By call: an error is its errno.
pub record ChildAnswers : Type 0 where
  pub forked : Result ℕ ℕ
  pub rlimit : Resource → ℕ → Result ℕ (Unit {0})
  pub bounding : ℕ → Result ℕ (Unit {0})
  pub groups : Result ℕ (Unit {0})
  pub gid : Result ℕ (Unit {0})
  pub uid : Result ℕ (Unit {0})
  pub exec_gain : Result ℕ (Unit {0})
  pub new_privs : Result ℕ (Unit {0})
  pub restricted : Result ℕ (Unit {0})
  pub gate_new_privs : Result ℕ (Unit {0})
  pub gate : Result ℕ (Unit {0})
  pub denylist : Result ℕ (Unit {0})
  pub executed : Result ℕ (Unit {0})

abbrev pub ChildRun : Type 0 → Type 0
ChildRun A = Trace ChildOp ℕ A

-- A call whose error ends the chain.
abbrev pub child_call : ChildOp → Result ℕ (Unit {0}) → ChildRun (Unit {0})
child_call op r = attempt op (λ errno. errno) r

abbrev pub einval : ℕ
einval = 22

unfoldable pub ignoring_einval : Result ℕ (Unit {0}) → Result ℕ (Unit {0})
ignoring_einval (ok _) = ok tt
ignoring_einval (err errno) = if errno == einval then ok tt else err errno

module _ (a : ChildAnswers) where
  unfoldable pub set_address_space : ℕ → ChildRun (Unit {0})
  set_address_space bytes =
      if ltb 0 bytes
      then child_call (set_rlimit Resource.address_space bytes)
          (a.rlimit Resource.address_space bytes)
      else pure tt

  unfoldable pub apply_resource_limits : ResourceLimits → ChildRun (Unit {0})
  unfolding set_address_space
  apply_resource_limits limits = do
    child_call (set_rlimit Resource.open_files limits.nofile)
        (a.rlimit Resource.open_files limits.nofile)
    child_call (set_rlimit Resource.processes limits.nproc)
        (a.rlimit Resource.processes limits.nproc)
    child_call (set_rlimit Resource.locked_memory limits.memlock_bytes)
        (a.rlimit Resource.locked_memory limits.memlock_bytes)
    set_address_space limits.address_space_bytes

  -- `count` capabilities, from `cap` on.
  unfoldable pub drop_capabilities : ℕ → ℕ → ChildRun (Unit {0})
  unfolding ignoring_einval
  drop_capabilities zero cap = pure tt
  drop_capabilities (suc count) cap = do
    child_call (drop_bounding cap) (ignoring_einval (a.bounding cap))
    drop_capabilities count (suc cap)

  unfoldable pub drop_privileges : ℕ → ℕ → ChildRun (Unit {0})
  unfolding drop_capabilities
  drop_privileges uid gid = do
    drop_capabilities 64 0
    child_call clear_groups a.groups
    child_call (set_gid gid) a.gid
    child_call (set_uid uid) a.uid

  -- Without the feature `danger-allow-write-execute`, and with it.
  unfoldable pub set_mdwe : Bool → ChildRun (Unit {0})
  set_mdwe false = child_call refuse_exec_gain a.exec_gain
  set_mdwe true = pure tt

  -- `landlock::restrict_self`, with the feature `landlock`.
  unfoldable pub restrict : Option Ruleset → ChildRun (Unit {0})
  restrict none = pure tt
  restrict (some rules) = do
    child_call no_new_privs a.new_privs
    child_call (restrict_self rules) a.restricted

  unfoldable pub install_arch_gate : ChildRun (Unit {0})
  install_arch_gate = do
    child_call no_new_privs a.gate_new_privs
    child_call (add_filter arch_gate_program) a.gate

  unfoldable pub install_baseline_denylist : Program → ChildRun (Unit {0})
  unfolding install_arch_gate
  install_baseline_denylist program = do
    install_arch_gate
    child_call (add_filter program) a.denylist

-- The closures in the order of the `pre_exec` calls.
unfoldable pub pre_exec : ChildAnswers → Bool → Confinement → ChildRun (Unit {0})
unfolding apply_resource_limits drop_privileges set_mdwe restrict install_baseline_denylist
pre_exec a allow_write_execute c = do
  apply_resource_limits a c.limits
  drop_privileges a c.uid c.gid
  set_mdwe a allow_write_execute
  restrict a c.rules
  install_baseline_denylist a c.program

-- The fork, the closures and the binary; an error in the child is one of `spawn`.
unfoldable pub spawn_child :
    ChildAnswers → SpawnFeatures → SpawnConstants → Confinement → ChildRun ℕ
unfolding pre_exec
spawn_child a f k c = do
  pid ← attempt fork (λ errno. errno) a.forked
  pre_exec a f.allow_write_execute c
  child_call (execve k.app_path c.env f.app_console) a.executed
  pure pid
