-- ===== src/Guest/Spawn/Confined.antt =====
-- The process that the app's binary starts in (guest/src/main.rs, `spawn_app`).
use cargo_unikernel.Common.{
  ◌∙◌, ℕ, zero, suc, ltb, not, ◌≡◌, ◌≢◌, refl, Bool, true, false, List, [], ◌∷◌, ◌++◌, ap, map,
  Option, none, some, if◌then◌else◌, ok, Bool-cases, inl, inr,
}
use cargo_unikernel.Std.Text.{Text}
use cargo_unikernel.Guest.Baked.{ResourceLimits}
use cargo_unikernel.Guest.Landlock
use cargo_unikernel.Guest.Landlock.{Ruleset}
use cargo_unikernel.Guest.Seccomp.{arch_gate_program}
use cargo_unikernel.Guest.Trace.{within}
use cargo_unikernel.Guest.Trace.Laws.{Ends, ended, demand_bind-Ends}
use cargo_unikernel.Guest.Trace.Exact.{weaken-Ends, within-Ends}
use cargo_unikernel.Guest.Spawn.{
  Program, Resource, ChildOp, no_new_privs, add_filter, execve, ChildAnswers, spawn_child,
  spawn_app, Confinement, SpawnFeatures, SpawnConstants, confinement, unchanged, unchanged_op,
  spawn_failed,
}
use cargo_unikernel.Guest.Spawn.Process.{Process, init_process, perform, perform_all}
use cargo_unikernel.Guest.Spawn.Fits.{Fits, confinement-Fits, app_ids-unprivileged}
use cargo_unikernel.Guest.Spawn.Made.{mdwe_ops, domain_ops, spawn_ops, spawn-Makes}

-- The process that the calls make of PID 1's child, before and after its limit on memory.
abbrev limits_of : ResourceLimits → List (Resource × ℕ)
limits_of l =
    (Resource.open_files, l.nofile)
    ∷ (Resource.processes, l.nproc)
    ∷ (Resource.locked_memory, l.memlock_bytes)
    ∷ (if ltb 0 l.address_space_bytes
        then (Resource.address_space, l.address_space_bytes) ∷ []
        else [])

abbrev domains_of : Option Ruleset → List Ruleset
domains_of none = []
domains_of (some rules) = rules ∷ []

-- `count` numbers from `cap` on.
abbrev numbers : ℕ → ℕ → List ℕ
numbers zero cap = []
numbers (suc count) cap = cap ∷ numbers count (suc cap)

abbrev pub confined_process : SpawnFeatures → SpawnConstants → Confinement → Process
confined_process f k c = record {
  uid = c.uid;
  gid = c.gid;
  has_groups = false;
  dropped = numbers 64 0;
  limits = limits_of c.limits;
  exec_gain_refused = not f.allow_write_execute;
  gains_no_privs = true;
  domains = domains_of c.rules;
  filters = arch_gate_program ∷ c.program ∷ [];
  runs = some (k.app_path, c.env);
}

-- The process after the privileges are dropped.
abbrev unprivileged : ℕ → ℕ → List (Resource × ℕ) → Process
unprivileged uid gid limits = record {
  uid = uid;
  gid = gid;
  has_groups = false;
  dropped = numbers 64 0;
  limits = limits;
  exec_gain_refused = false;
  gains_no_privs = false;
  domains = [];
  filters = [];
  runs = none;
}

-- From there on.
rest-performed :
    (allow : Bool) (rules : Option Ruleset) (uid gid : ℕ) (limits : List (Resource × ℕ))
    (program : Program) (path : Text) (env : List (Text × Text)) (console : Bool)
    → perform_all
        ((mdwe_ops allow
            ++ (domain_ops rules
                ++ no_new_privs ∷ add_filter arch_gate_program ∷ add_filter program ∷ []))
          ++ ((execve path env console ∷ []) ++ []))
        (unprivileged uid gid limits)
      ≡ some (record {
        uid = uid;
        gid = gid;
        has_groups = false;
        dropped = numbers 64 0;
        limits = limits;
        exec_gain_refused = not allow;
        gains_no_privs = true;
        domains = domains_of rules;
        filters = arch_gate_program ∷ program ∷ [];
        runs = some (path, env);
      })
unfolding perform_all perform
rest-performed true none uid gid limits program path env console = refl
rest-performed true (some rules) uid gid limits program path env console = refl
rest-performed false none uid gid limits program path env console = refl
rest-performed false (some rules) uid gid limits program path env console = refl

-- Every call is permitted where it stands, and this is what they come to.
spawn_ops-performed :
    (f : SpawnFeatures) (k : SpawnConstants) (c : Confinement)
    → perform_all (spawn_ops f k c) init_process ≡ some (confined_process f k c)
unfolding perform_all perform
spawn_ops-performed f k c = elim (Bool-cases (ltb 0 c.limits.address_space_bytes)) [
  | inl capped ↦ rw capped (
      rest-performed f.allow_write_execute c.rules c.uid c.gid _ c.program k.app_path c.env
        f.app_console)
  | inr free ↦ rw free (
      rest-performed f.allow_write_execute c.rules c.uid c.gid _ c.program k.app_path c.env
        f.app_console)
]

map-unchanged : (ops : List ChildOp) → map unchanged_op ops ≡ ops
map-unchanged [] = refl
map-unchanged (op ∷ ops) = ap (◌∷◌ op) (map-unchanged ops)

-- What the calls of a spawn make of the child.
abbrev pub AppConfined :
    (Text → ℕ)
    → (List ℕ → Option Program)
    → Landlock.Calls
    → SpawnFeatures
    → SpawnConstants
    → List ChildOp
    → Type 0
AppConfined number compile calls f k ops =
    (c : Confinement) × Fits number compile calls f k c
    × (perform_all ops init_process ≡ some (confined_process f k c))
    × (c.uid ≢ 0)
    × (c.gid ≢ 0)

-- The same of a spawn that ends well.
pub spawn_app-Ends :
    (number : Text → ℕ) (compile : List ℕ → Option Program) (calls : Landlock.Calls)
    (a : ChildAnswers) (f : SpawnFeatures) (k : SpawnConstants)
    → Ends
        (λ ops _. AppConfined number compile calls f k ops)
        (spawn_app number compile calls a f k)
unfolding spawn_app
spawn_app-Ends number compile calls a f k =
    demand_bind-Ends unchanged (confinement number compile calls f k)
      (λ c. within unchanged_op spawn_failed (spawn_child a f k c))
      (λ c built. within-Ends unchanged_op spawn_failed (
        weaken-Ends
          (λ ops p made.
            let fits = confinement-Fits number compile calls f k c built in
            let ids = app_ids-unprivileged k.app_uid k.app_gid c.uid c.gid fits.ids in
            (
              c,
              fits,
              ap (λ o. perform_all o init_process) (map-unchanged ops ∙ made)
                  ∙ spawn_ops-performed f k c,
              ids.0,
              ids.1,
            ))
          (spawn-Makes a f k c)))

-- If `spawn_app` returns a process id, then the constants, the features and the system calls gave a
-- confinement that fits them, every call that the forked child has made is permitted where it
-- stands (the capabilities go before the user id, a ruleset and filters come after
-- `no_new_privs`), and they leave the process that runs the app's binary with the confinement's
-- ids, which are not root's, without groups, with all of the 64 capabilities out of its bounding
-- set, within its limits, in its Landlock domain and behind the gate and the denylist.
pub app_confined :
    (number : Text → ℕ) (compile : List ℕ → Option Program) (calls : Landlock.Calls)
    (a : ChildAnswers) (f : SpawnFeatures) (k : SpawnConstants) (pid : ℕ)
    → (spawn_app number compile calls a f k).1 ≡ ok pid
    → AppConfined number compile calls f k (spawn_app number compile calls a f k).0
app_confined number compile calls a f k pid h =
    ended pid h (spawn_app-Ends number compile calls a f k)
