-- ===== src/Pipeline/GuestInit.antt =====
-- `init_features` and `app_env_exports` of src/pipeline/docker/guest_init_script.rs. The exports
-- are the list of the names and values that `write_export` is called with, in order.
use cargo_unikernel.Common.{
  Bool, true, false, ◌&&◌, not, List, [], ◌∷◌, ◌++◌, Option, none, some, is_empty,
}
use cargo_unikernel.Std.Text.{Text, codes}
use cargo_unikernel.Std.Decimal.{show}
use cargo_unikernel.Schema.Types.{
  Config, ProfileKind, StorageMode, Ipv6Static, AppLimits, TmpfsSizes, has_ipv4, has_ipv6, has_any,
  AppRuntime, Network, LandlockConfig,
}
use cargo_unikernel.Pipeline.Shell.{write_export}
use cargo_unikernel.Pipeline.Wire.{encode_path_list, encode_kv_pairs, encode_inbound}

-- `if test { push(item) }`.
unfoldable pub when {ℓ} : {A : Type ℓ} → Bool → A → List A
when true a = a ∷ []
when false a = []

abbrev is_sev_snp : ProfileKind → Bool
is_sev_snp ProfileKind.sev_snp = true
is_sev_snp ProfileKind.casual = false

abbrev is_persistent : StorageMode → Bool
is_persistent StorageMode.persistent = true
is_persistent StorageMode.ram = false

-- `v.unwrap_or(true)`.
abbrev enabled : Option Bool → Bool
enabled (some b) = b
enabled none = true

-- The filter is built in and configured under this one test.
unfoldable pub has_firewall : Network → Bool
has_firewall net = net.firewall.enabled && has_any net.mode

unfoldable pub init_features : Config → List Text
init_features c =
    when (is_sev_snp c.profile.kind) (codes "sev-snp")
    ++ (when (has_ipv4 c.network.mode) (codes "net-ipv4")
        ++ (when (has_ipv6 c.network.mode) (codes "net-ipv6")
            ++ (when (is_persistent c.storage.mode) (codes "storage-persistent")
                ++ (when (enabled rh.network_spoofing_protection) (codes "hardening-net-spoofing")
                    ++ (when (enabled rh.icmp_hardening) (codes "hardening-icmp")
                        ++ (when (enabled rh.tcp_hardening) (codes "hardening-tcp")
                            ++ (when (enabled rh.info_leak_restriction)
                                  (codes "hardening-info-leak")
                                ++ (when (enabled rh.ptrace_and_bpf_restriction)
                                      (codes "hardening-ptrace-bpf")
                                    ++ (when (enabled rh.kexec_and_fs_protection)
                                          (codes "hardening-kexec-fs")
                                        ++ (when c.app.runtime.danger.allow_write_execute
                                              (codes "danger-allow-write-execute")
                                            ++ (when rh.proc_subset_pid (codes "proc-subset-pid")
                                                ++ (when c.app.runtime.landlock.enabled
                                                      (codes "landlock")
                                                    ++ (when (has_firewall c.network)
                                                          (codes "firewall")
                                                        ++ (when c.app.runtime.console
                                                            (codes "app-console")
                                                            ++ when c.logging.enabled
                                                            (codes "logging")))))))))))))))
  where
    open c.hardening use {runtime as rh}

abbrev pub Exports : Type 0
Exports = List (Text × Text)

-- `if let Some(value) = …`.
unfoldable pub when_some : Text → Option Text → Exports
when_some name (some value) = (name, value) ∷ []
when_some name none = []

unfoldable pub id_and_env_exports : AppRuntime → Exports
id_and_env_exports r =
    (codes "CARGO_UNIKERNEL_APP_UID", show r.uid)
    ∷ (codes "CARGO_UNIKERNEL_APP_GID", show r.gid)
    ∷ when (not (is_empty r.env)) (codes "CARGO_UNIKERNEL_APP_ENV", encode_kv_pairs r.env)

unfoldable pub limit_exports : AppLimits → Exports
limit_exports limits =
    (codes "CARGO_UNIKERNEL_LIMIT_NOFILE", show limits.max_open_files)
    ∷ (codes "CARGO_UNIKERNEL_LIMIT_NPROC", show limits.max_processes)
    ∷ (codes "CARGO_UNIKERNEL_LIMIT_AS_MB", show limits.max_memory_mb)
    ∷ (codes "CARGO_UNIKERNEL_LIMIT_MEMLOCK_MB", show limits.max_locked_memory_mb)
    ∷ []

unfoldable pub ipv6_text : Ipv6Static → Text
ipv6_text v6 = v6.address ++ b'/' ∷ show v6.prefix_len

unfoldable pub ipv6_exports : Option Ipv6Static → Exports
unfolding ipv6_text
ipv6_exports none = []
ipv6_exports (some v6) =
    (codes "CARGO_UNIKERNEL_IPV6_STATIC", ipv6_text v6)
    ∷ (when_some (codes "CARGO_UNIKERNEL_IPV6_GATEWAY") v6.gateway
        ++ when_some (codes "CARGO_UNIKERNEL_IPV6_IFACE") v6.interface)

unfoldable pub sysctl_exports : List (Text × Text) → Exports
sysctl_exports extra =
    when (not (is_empty extra)) (codes "CARGO_UNIKERNEL_EXTRA_SYSCTLS", encode_kv_pairs extra)

unfoldable pub tmpfs_exports : TmpfsSizes → Exports
tmpfs_exports tmpfs =
    (codes "CARGO_UNIKERNEL_TMPFS_TMP_MB", show tmpfs.tmp_mb)
    ∷ (codes "CARGO_UNIKERNEL_TMPFS_RUN_MB", show tmpfs.run_mb)
    ∷ (codes "CARGO_UNIKERNEL_TMPFS_SHM_MB", show tmpfs.shm_mb)
    ∷ (codes "CARGO_UNIKERNEL_TMPFS_VAR_TMP_MB", show tmpfs.var_tmp_mb)
    ∷ []

unfoldable pub landlock_exports : LandlockConfig → Exports
landlock_exports l =
    when (l.enabled && not (is_empty l.extra_read_paths))
      (codes "CARGO_UNIKERNEL_LANDLOCK_RO", encode_path_list l.extra_read_paths)
    ++ when (l.enabled && not (is_empty l.extra_read_write_paths))
        (codes "CARGO_UNIKERNEL_LANDLOCK_RW", encode_path_list l.extra_read_write_paths)

unfoldable pub network_exports : Network → Exports
network_exports net =
    when (has_firewall net)
      (codes "CARGO_UNIKERNEL_FIREWALL_RULES", encode_inbound net.firewall.inbound)
    ++ (when (not (is_empty net.nameservers))
          (codes "CARGO_UNIKERNEL_NAMESERVERS", encode_path_list net.nameservers)
        ++ when_some (codes "CARGO_UNIKERNEL_DNS_SEARCH") net.search_domain)

unfoldable pub app_env_exports : Config → Exports
app_env_exports c =
    id_and_env_exports c.app.runtime
    ++ (limit_exports c.app.runtime.limits
        ++ (ipv6_exports c.network.ipv6_static
            ++ (sysctl_exports c.hardening.extra_sysctls
                ++ (tmpfs_exports c.storage.tmpfs
                    ++ (landlock_exports c.app.runtime.landlock ++ network_exports c.network)))))

-- The script text that the exports make.
unfoldable pub export_script : Text → Exports → Text
export_script s [] = s
export_script s ((name, value) ∷ rest) = export_script (write_export s name value) rest
