-- ===== src/Guest/Spawn/Process.antt =====
-- The credentials and the confinement of a Linux process as far as the calls of `spawn_app` in
-- guest/src/main.rs change them, and which of the calls it may make: capabilities(7), setuid(2),
-- setrlimit(2), prctl(2), seccomp(2) and landlock_restrict_self(2).
use cargo_unikernel.Common.{
  ℕ, ◌==◌, ◌||◌, Bool, true, false, List, [], ◌∷◌, ◌++◌, Option, none, some,
}
use cargo_unikernel.Std.Text.{Text}
use cargo_unikernel.Guest.Landlock.{Ruleset}
use cargo_unikernel.Guest.Spawn.{
  Program, Resource, ChildOp, fork, set_rlimit, drop_bounding, clear_groups, set_gid, set_uid,
  refuse_exec_gain, no_new_privs, restrict_self, add_filter, execve,
}

pub record Process : Type 0 where
  pub uid : ℕ
  pub gid : ℕ
  pub has_groups : Bool
  pub dropped : List ℕ
  pub limits : List (Resource × ℕ)
  pub exec_gain_refused : Bool
  pub gains_no_privs : Bool
  pub domains : List Ruleset
  pub filters : List Program
  pub runs : Option (Text × List (Text × Text))

-- PID 1 as it forks.
abbrev pub init_process : Process
init_process = record {
  uid = 0;
  gid = 0;
  has_groups = true;
  dropped = [];
  limits = [];
  exec_gain_refused = false;
  gains_no_privs = false;
  domains = [];
  filters = [];
  runs = none;
}

-- A user id other than 0 has no capabilities.
abbrev pub privileged : Process → Bool
privileged p = p.uid == 0

abbrev pub permitted : Bool → Process → Option Process
permitted true p = some p
permitted false p = none

unfoldable pub perform : ChildOp → Process → Option Process
perform fork p = some p
perform (set_rlimit resource value) p = permitted (privileged p) (record {
  uid = p.uid;
  gid = p.gid;
  has_groups = p.has_groups;
  dropped = p.dropped;
  limits = p.limits ++ (resource, value) ∷ [];
  exec_gain_refused = p.exec_gain_refused;
  gains_no_privs = p.gains_no_privs;
  domains = p.domains;
  filters = p.filters;
  runs = p.runs;
})
perform (drop_bounding cap) p = permitted (privileged p) (record {
  uid = p.uid;
  gid = p.gid;
  has_groups = p.has_groups;
  dropped = p.dropped ++ cap ∷ [];
  limits = p.limits;
  exec_gain_refused = p.exec_gain_refused;
  gains_no_privs = p.gains_no_privs;
  domains = p.domains;
  filters = p.filters;
  runs = p.runs;
})
perform clear_groups p = permitted (privileged p) (record {
  uid = p.uid;
  gid = p.gid;
  has_groups = false;
  dropped = p.dropped;
  limits = p.limits;
  exec_gain_refused = p.exec_gain_refused;
  gains_no_privs = p.gains_no_privs;
  domains = p.domains;
  filters = p.filters;
  runs = p.runs;
})
perform (set_gid gid) p = permitted (privileged p) (record {
  uid = p.uid;
  gid = gid;
  has_groups = p.has_groups;
  dropped = p.dropped;
  limits = p.limits;
  exec_gain_refused = p.exec_gain_refused;
  gains_no_privs = p.gains_no_privs;
  domains = p.domains;
  filters = p.filters;
  runs = p.runs;
})
perform (set_uid uid) p = permitted (privileged p) (record {
  uid = uid;
  gid = p.gid;
  has_groups = p.has_groups;
  dropped = p.dropped;
  limits = p.limits;
  exec_gain_refused = p.exec_gain_refused;
  gains_no_privs = p.gains_no_privs;
  domains = p.domains;
  filters = p.filters;
  runs = p.runs;
})
perform refuse_exec_gain p = some (record {
  uid = p.uid;
  gid = p.gid;
  has_groups = p.has_groups;
  dropped = p.dropped;
  limits = p.limits;
  exec_gain_refused = true;
  gains_no_privs = p.gains_no_privs;
  domains = p.domains;
  filters = p.filters;
  runs = p.runs;
})
perform no_new_privs p = some (record {
  uid = p.uid;
  gid = p.gid;
  has_groups = p.has_groups;
  dropped = p.dropped;
  limits = p.limits;
  exec_gain_refused = p.exec_gain_refused;
  gains_no_privs = true;
  domains = p.domains;
  filters = p.filters;
  runs = p.runs;
})
perform (restrict_self rules) p = permitted (p.gains_no_privs || privileged p) (record {
  uid = p.uid;
  gid = p.gid;
  has_groups = p.has_groups;
  dropped = p.dropped;
  limits = p.limits;
  exec_gain_refused = p.exec_gain_refused;
  gains_no_privs = p.gains_no_privs;
  domains = p.domains ++ rules ∷ [];
  filters = p.filters;
  runs = p.runs;
})
perform (add_filter program) p = permitted (p.gains_no_privs || privileged p) (record {
  uid = p.uid;
  gid = p.gid;
  has_groups = p.has_groups;
  dropped = p.dropped;
  limits = p.limits;
  exec_gain_refused = p.exec_gain_refused;
  gains_no_privs = p.gains_no_privs;
  domains = p.domains;
  filters = p.filters ++ program ∷ [];
  runs = p.runs;
})
perform (execve path env console) p = some (record {
  uid = p.uid;
  gid = p.gid;
  has_groups = p.has_groups;
  dropped = p.dropped;
  limits = p.limits;
  exec_gain_refused = p.exec_gain_refused;
  gains_no_privs = p.gains_no_privs;
  domains = p.domains;
  filters = p.filters;
  runs = some (path, env);
})

-- Nothing, if one of the calls is not permitted.
unfoldable pub perform_all : List ChildOp → Process → Option Process
unfolding perform
perform_all [] p = some p
perform_all (op ∷ ops) p = elim (perform op p) [ none ↦ none | some q ↦ perform_all ops q ]
