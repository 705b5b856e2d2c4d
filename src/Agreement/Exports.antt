-- ===== src/Agreement/Exports.antt =====
-- Which value the environment has for each name that the build script exports.
mod Absent
pub mod Ipv6
use cargo_unikernel.Common.{
  Bool, true, false, ◌≡◌, refl, ◌∙◌, [], ◌∷◌, ◌++◌, Option, none, some, is_empty, not, arith,
  if◌then◌else◌,
}
use cargo_unikernel.Std.Text.{Text, codes, text_eq}
use cargo_unikernel.Std.Decimal.{show}
use cargo_unikernel.Schema.Types.{Config, Ipv6Static}
use cargo_unikernel.Pipeline.Wire.{encode_path_list, encode_kv_pairs, encode_inbound}
use cargo_unikernel.Pipeline.GuestInit.{
  Exports, when, when_some, has_firewall, id_and_env_exports, limit_exports, ipv6_exports,
  sysctl_exports, tmpfs_exports, landlock_exports, network_exports, app_env_exports,
}
use cargo_unikernel.Guest.Baked.{env_var}
use Absent.{
  absent, env_var-Absent-append, env_var-append-Absent, Absent-ipv6, in_id_and_env, in_landlock,
  in_limits, in_network, in_sysctls,
}

abbrev pub uid_name : Text
uid_name = codes "CARGO_UNIKERNEL_APP_UID"

abbrev pub gid_name : Text
gid_name = codes "CARGO_UNIKERNEL_APP_GID"

abbrev pub env_name : Text
env_name = codes "CARGO_UNIKERNEL_APP_ENV"

abbrev pub memlock_name : Text
memlock_name = codes "CARGO_UNIKERNEL_LIMIT_MEMLOCK_MB"

abbrev pub as_name : Text
as_name = codes "CARGO_UNIKERNEL_LIMIT_AS_MB"

abbrev pub nofile_name : Text
nofile_name = codes "CARGO_UNIKERNEL_LIMIT_NOFILE"

abbrev pub nproc_name : Text
nproc_name = codes "CARGO_UNIKERNEL_LIMIT_NPROC"

abbrev pub sysctls_name : Text
sysctls_name = codes "CARGO_UNIKERNEL_EXTRA_SYSCTLS"

abbrev pub firewall_name : Text
firewall_name = codes "CARGO_UNIKERNEL_FIREWALL_RULES"

abbrev pub read_paths_name : Text
read_paths_name = codes "CARGO_UNIKERNEL_LANDLOCK_RO"

abbrev pub read_write_paths_name : Text
read_write_paths_name = codes "CARGO_UNIKERNEL_LANDLOCK_RW"

abbrev pub nameservers_name : Text
nameservers_name = codes "CARGO_UNIKERNEL_NAMESERVERS"

module _ (c : Config) where
  pub env_var-uid : env_var uid_name (app_env_exports c) ≡ some (show c.app.runtime.uid)
  unfolding id_and_env_exports limit_exports sysctl_exports tmpfs_exports landlock_exports
      network_exports text_eq
  env_var-uid =
      in_id_and_env _ c (search absent) (Absent-ipv6 _ _ refl refl refl) (search absent)
        (search absent) (search absent) (search absent)
      ∙ unfold env_var when when_some in ground arith

  pub env_var-gid : env_var gid_name (app_env_exports c) ≡ some (show c.app.runtime.gid)
  unfolding id_and_env_exports limit_exports sysctl_exports tmpfs_exports landlock_exports
      network_exports text_eq
  env_var-gid =
      in_id_and_env _ c (search absent) (Absent-ipv6 _ _ refl refl refl) (search absent)
        (search absent) (search absent) (search absent)
      ∙ unfold env_var when when_some in ground arith

  pub env_var-env :
      env_var env_name (app_env_exports c)
      ≡ (if is_empty c.app.runtime.env then none else some (encode_kv_pairs c.app.runtime.env))
  unfolding id_and_env_exports limit_exports sysctl_exports tmpfs_exports landlock_exports
      network_exports text_eq
  env_var-env =
      in_id_and_env _ c (search absent) (Absent-ipv6 _ _ refl refl refl) (search absent)
        (search absent) (search absent) (search absent)
      ∙ unfold env_var when when_some in ground arith

  pub env_var-memlock :
      env_var memlock_name (app_env_exports c)
      ≡ some (show c.app.runtime.limits.max_locked_memory_mb)
  unfolding id_and_env_exports limit_exports sysctl_exports tmpfs_exports landlock_exports
      network_exports text_eq
  env_var-memlock =
      in_limits _ c (search absent) (Absent-ipv6 _ _ refl refl refl) (search absent) (search absent)
        (search absent) (search absent)
      ∙ unfold env_var when when_some in ground arith

  pub env_var-as :
      env_var as_name (app_env_exports c) ≡ some (show c.app.runtime.limits.max_memory_mb)
  unfolding id_and_env_exports limit_exports sysctl_exports tmpfs_exports landlock_exports
      network_exports text_eq
  env_var-as =
      in_limits _ c (search absent) (Absent-ipv6 _ _ refl refl refl) (search absent) (search absent)
        (search absent) (search absent)
      ∙ unfold env_var when when_some in ground arith

  pub env_var-nofile :
      env_var nofile_name (app_env_exports c) ≡ some (show c.app.runtime.limits.max_open_files)
  unfolding id_and_env_exports limit_exports sysctl_exports tmpfs_exports landlock_exports
      network_exports text_eq
  env_var-nofile =
      in_limits _ c (search absent) (Absent-ipv6 _ _ refl refl refl) (search absent) (search absent)
        (search absent) (search absent)
      ∙ unfold env_var when when_some in ground arith

  pub env_var-nproc :
      env_var nproc_name (app_env_exports c) ≡ some (show c.app.runtime.limits.max_processes)
  unfolding id_and_env_exports limit_exports sysctl_exports tmpfs_exports landlock_exports
      network_exports text_eq
  env_var-nproc =
      in_limits _ c (search absent) (Absent-ipv6 _ _ refl refl refl) (search absent) (search absent)
        (search absent) (search absent)
      ∙ unfold env_var when when_some in ground arith

  pub env_var-sysctls : env_var sysctls_name (app_env_exports c) ≡ (
      if is_empty c.hardening.extra_sysctls
      then none
      else some (encode_kv_pairs c.hardening.extra_sysctls))
  unfolding id_and_env_exports limit_exports sysctl_exports tmpfs_exports landlock_exports
      network_exports text_eq
  env_var-sysctls =
      in_sysctls _ c (search absent) (search absent) (Absent-ipv6 _ _ refl refl refl)
        (search absent) (search absent) (search absent)
      ∙ unfold env_var when when_some in ground arith

  pub env_var-firewall :
      env_var firewall_name (app_env_exports c)
      ≡ (if has_firewall c.network then some (encode_inbound c.network.firewall.inbound) else none)
  unfolding id_and_env_exports limit_exports sysctl_exports tmpfs_exports landlock_exports
      network_exports text_eq
  env_var-firewall =
      in_network _ c (search absent) (search absent) (Absent-ipv6 _ _ refl refl refl)
        (search absent) (search absent) (search absent)
      ∙ unfold env_var when when_some in ground arith

  pub env_var-read_paths : env_var read_paths_name (app_env_exports c) ≡ (
      if c.app.runtime.landlock.enabled
      then (if is_empty c.app.runtime.landlock.extra_read_paths
          then none
          else some (encode_path_list c.app.runtime.landlock.extra_read_paths))
      else none)
  unfolding id_and_env_exports limit_exports sysctl_exports tmpfs_exports landlock_exports
      network_exports text_eq
  env_var-read_paths =
      in_landlock _ c (search absent) (search absent) (Absent-ipv6 _ _ refl refl refl)
        (search absent) (search absent) (search absent)
      ∙ unfold env_var when when_some in ground arith

  pub env_var-read_write_paths : env_var read_write_paths_name (app_env_exports c) ≡ (
      if c.app.runtime.landlock.enabled
      then (if is_empty c.app.runtime.landlock.extra_read_write_paths
          then none
          else some (encode_path_list c.app.runtime.landlock.extra_read_write_paths))
      else none)
  unfolding id_and_env_exports limit_exports sysctl_exports tmpfs_exports landlock_exports
      network_exports text_eq
  env_var-read_write_paths =
      in_landlock _ c (search absent) (search absent) (Absent-ipv6 _ _ refl refl refl)
        (search absent) (search absent) (search absent)
      ∙ unfold env_var when when_some in ground arith

  pub env_var-nameservers : env_var nameservers_name (app_env_exports c) ≡ (
      if is_empty c.network.nameservers
      then none
      else some (encode_path_list c.network.nameservers))
  unfolding id_and_env_exports limit_exports sysctl_exports tmpfs_exports landlock_exports
      network_exports text_eq
  env_var-nameservers =
      in_network _ c (search absent) (search absent) (Absent-ipv6 _ _ refl refl refl)
        (search absent) (search absent) (search absent)
      ∙ env_var-Absent-append nameservers_name _ _ (search absent)
      ∙ env_var-append-Absent nameservers_name
          (when (not (is_empty c.network.nameservers))
            (nameservers_name, encode_path_list c.network.nameservers))
          (when_some (codes "CARGO_UNIKERNEL_DNS_SEARCH") c.network.search_domain) (search absent)
      ∙ unfold env_var when in ground arith
