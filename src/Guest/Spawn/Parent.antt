-- ===== src/Guest/Spawn/Parent.antt =====
-- What `spawn_app` of guest/src/main.rs parses and builds before the fork, with
-- `build_baseline_denylist` of guest/src/seccomp.rs.
use cargo_unikernel.Common.{
  ℕ, Bool, List, Option, none, some, if◌then◌else◌, Result, ok, err, map, ◌>>=◌, ok_or,
}
use cargo_unikernel.Std.Text.{Text, codes}
use cargo_unikernel.Guest.Baked.{
  Fatal, ResourceLimits, resource_limits, app_ids, parse_pairs, parse_path_list,
}
use cargo_unikernel.Guest.Landlock
use cargo_unikernel.Guest.Landlock.{Ruleset, LandlockFatal}
use cargo_unikernel.Guest.Seccomp.{SockFilter}
use cargo_unikernel.Guest.Seccomp.Denylist.{denied}

abbrev pub Program : Type 0
Program = List SockFilter

-- The features that `spawn_app` looks at.
pub record SpawnFeatures : Type 0 where
  pub landlock : Bool
  pub sev_snp : Bool
  pub allow_write_execute : Bool
  pub app_console : Bool

-- The baked-in constants.
pub record SpawnConstants : Type 0 where
  pub payload_dir : Text
  pub app_path : Text
  pub app_uid : Text
  pub app_gid : Text
  pub app_env : Text
  pub limit_nofile : Text
  pub limit_nproc : Text
  pub limit_memlock_mb : Text
  pub limit_as_mb : Text
  pub landlock_ro : Text
  pub landlock_rw : Text

pub data SpawnFatal : Type 0 where
  denylist_not_built : SpawnFatal
  spawn_constant : Fatal → SpawnFatal
  no_ruleset : LandlockFatal → SpawnFatal
  spawn_failed : ℕ → SpawnFatal

-- What the child is made of.
pub record Confinement : Type 0 where
  pub limits : ResourceLimits
  pub uid : ℕ
  pub gid : ℕ
  pub rules : Option Ruleset
  pub program : Program
  pub env : List (Text × Text)

-- `fatal_shutdown` on an error of one kind.
abbrev pub or_stop : {E A : Type 0} → (E → SpawnFatal) → Result E A → Result SpawnFatal A
or_stop f (ok a) = ok a
or_stop f (err e) = err (f e)

abbrev pub built_rules : Result LandlockFatal Ruleset → Result SpawnFatal (Option Ruleset)
built_rules (ok rules) = ok (some rules)
built_rules (err e) = err (no_ruleset e)

unfoldable pub build_ruleset :
    Landlock.Calls → SpawnFeatures → SpawnConstants → Result SpawnFatal (Option Ruleset)
unfolding Landlock.build parse_path_list
build_ruleset calls f k =
    if f.landlock
    then built_rules (
        Landlock.build calls
          (record { allow_write_execute = f.allow_write_execute; sev_snp = f.sev_snp })
          k.payload_dir (parse_path_list k.landlock_ro) (parse_path_list k.landlock_rw))
    else ok none

-- `seccompiler`'s filter with the action `KillProcess` for the numbers and `Allow` for all else;
-- `number` is libc's constant of a name.
module _ (number : Text → ℕ) (compile : List ℕ → Option Program) where
  unfoldable pub build_baseline_denylist : Bool → Result SpawnFatal Program
  unfolding denied
  build_baseline_denylist allow_write_execute =
      ok_or (compile (map number (denied allow_write_execute))) denylist_not_built

  unfoldable pub confinement :
      Landlock.Calls → SpawnFeatures → SpawnConstants → Result SpawnFatal Confinement
  unfolding build_baseline_denylist resource_limits build_ruleset app_ids parse_pairs
  confinement calls f k = do
    program ← build_baseline_denylist f.allow_write_execute
    limits ←
        or_stop spawn_constant
          (resource_limits k.limit_nofile k.limit_nproc k.limit_memlock_mb k.limit_as_mb)
    rules ← build_ruleset calls f k
    ids ← or_stop spawn_constant (app_ids k.app_uid k.app_gid)
    env ← or_stop spawn_constant (parse_pairs k.app_env (codes "[app.runtime].env"))
    ok (record {
      limits = limits;
      uid = ids.0;
      gid = ids.1;
      rules = rules;
      program = program;
      env = env;
    })
